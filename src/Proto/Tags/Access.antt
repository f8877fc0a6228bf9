-- ===== src/Proto/Tags/Access.antt =====
-- Reading, setting and removing tags by key.
use mathlib.Core.List.{reverse, reverse-append}
use obby_client.Base.{
  ◌≡◌, refl, ap, ◌∙◌, Bool, true, false, Option, none, some, [], ◌∷◌, ◌++◌, Text, same, same_iff,
  same_refl, find, find-append, any, retain, or_else, is_some, bind, if◌then◌else◌, arith,
  Bool-cases, inl, inr,
}
use obby_client.Proto.Tags.{Tag, Tags, has_key, get, contains, set, replace_first, remove}

find-last :
    (k : Text) (t : Tag) (ts : Tags)
    → find (has_key k) (reverse (t ∷ ts))
      ≡ or_else (find (has_key k) (reverse ts)) (if has_key k t then some t else none)
find-last k t ts =
    ap (find (has_key k)) (reverse-append (t ∷ []) ts)
    ∙ find-append (has_key k) (reverse ts) (t ∷ [])
    ∙ unfold find in refl

-- `get` read from the front: a later tag with the key hides an earlier one.
find_last : Text → Tags → Option Tag
find_last k ts = find (has_key k) (reverse ts)

find_last-cons :
    (k : Text) (t : Tag) (ts : Tags)
    → find_last k (t ∷ ts) ≡ or_else (find_last k ts) (if has_key k t then some t else none)
unfolding find_last
find_last-cons = find-last

get-find_last : (k : Text) (ts : Tags) → get k ts ≡ bind (find_last k ts) (λ t. t.value)
unfolding get find_last
get-find_last k ts = refl

find_last-append :
    (k : Text) (t : Tag) (ts : Tags)
    → find_last k (ts ++ t ∷ []) ≡ (if has_key k t then some t else find_last k ts)
unfolding find_last
find_last-append k t ts = ap (find (has_key k)) (reverse-append ts (t ∷ [])) ∙ unfold find in refl

find_last-contains : (k : Text) (ts : Tags) → is_some (find_last k ts) ≡ contains k ts
unfolding contains any
find_last-contains k [] = unfold find_last find in refl
find_last-contains k (t ∷ ts) = rw (find_last-cons k t ts) (ground (arith, find_last-contains k ts))

find-contains : (k : Text) (ts : Tags) → is_some (find (has_key k) ts) ≡ contains k ts
unfolding find contains any
find-contains k [] = refl
find-contains k (t ∷ ts) = ground (arith, find-contains k ts)

-- The key occurs behind its first occurrence.
unfoldable pub repeats : Text → Tags → Bool
repeats k [] = false
repeats k (t ∷ ts) = if has_key k t then contains k ts else repeats k ts

repeats-contains : (k : Text) (ts : Tags) → repeats k ts ≡ true → contains k ts ≡ true
unfolding repeats contains any
repeats-contains k [] h = cc
repeats-contains k (t ∷ ts) h = ground (arith, repeats-contains k ts)

find_last-none : (k : Text) (ts : Tags) → contains k ts ≡ false → find_last k ts ≡ none
find_last-none k ts h = ground (arith, find_last-contains k ts)

find_last-some :
    (k : Text) (ts : Tags) → contains k ts ≡ true → (t : Tag) × (find_last k ts ≡ some t)
find_last-some k ts h = ground (arith, find_last-contains k ts)

find_last-replace_first :
    (t : Tag) (ts : Tags)
    → contains t.key ts ≡ true
    → find_last t.key (replace_first t ts)
      ≡ (if repeats t.key ts then find_last t.key ts else some t)
unfolding replace_first repeats contains any
find_last-replace_first t [] h = cc
find_last-replace_first t (u ∷ ts) h = elim (Bool-cases (has_key t.key u)) [
  | inl e ↦
      rw (e, find_last-cons, find_last-cons, e)
        (ground (arith, find_last-contains t.key ts, same_refl t.key))
  | inr e ↦
      rw (e, find_last-cons, find_last-cons, e)
        (ground (
          arith,
          find_last-replace_first t ts,
          find_last-contains t.key ts,
          repeats-contains t.key ts,
        ))
]

-- After `set`, `get` returns the value that was set, unless the key occurred twice: then `set`
-- has replaced the first occurrence, and `get` still returns the value of the last one.
pub get-set :
    (t : Tag) (ts : Tags)
    → get t.key (set t ts) ≡ (if repeats t.key ts then get t.key ts else t.value)
unfolding set
get-set t ts =
    rw (get-find_last, get-find_last, find-contains)
      (ground (
        arith,
        find_last-append t.key t ts,
        find_last-replace_first t ts,
        repeats-contains t.key ts,
        same_refl t.key,
      ))

find_last-remove :
    (j k : Text) (ts : Tags)
    → find_last k (remove j ts) ≡ (if same j k then none else find_last k ts)
unfolding remove retain
find_last-remove j k [] = unfold find_last find in ground arith
find_last-remove j k (t ∷ ts) = elim (Bool-cases (has_key j t)) [
  | inl e ↦
      rw (e, find_last-cons k t ts, find_last-remove j k ts)
        (ground (arith, same_iff t.key j, same_iff t.key k, same_iff j k))
  | inr e ↦
      rw (e, find_last-cons k t ts)
        (rw (find_last-cons k t, find_last-remove j k ts)
          (ground (arith, same_iff t.key j, same_iff t.key k, same_iff j k)))
]

-- `remove` withdraws every tag with the key, duplicates included, and no other tag's value.
pub get-remove :
    (j k : Text) (ts : Tags) → get k (remove j ts) ≡ (if same j k then none else get k ts)
get-remove j k ts = rw (get-find_last, get-find_last, find_last-remove) (ground arith)
