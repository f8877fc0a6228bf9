-- ===== src/Client/Model/Records.antt =====
-- The records of `WHOIS` replies stay few: `whois_or_insert` of crates/obby-client/src/model.rs.
use obby_client.Base.{
  suc, ◌≡◌, ◌≤◌, refl, ap, sym, ◌∙◌, Bool, true, false, not, ◌&&◌, Option, none, some, [], ◌∷◌,
  Text, length, leb, arith, Bool-cases, if-holds, Option-cases, inl, inr, ◌⊎◌, text_ord, same_refl,
  is_nil, if◌then◌else◌, ◌||◌, ◌≢◌,
}
use obby_client.Base.OrdMap
use obby_client.Base.OrdMap.{Map, get-insert, contains_key-get, get-remove}
use obby_client.Base.OrdMap.Sorted.{
  IsSorted, length-insert, length-remove-some, length-insert-some, insert-IsSorted, remove-IsSorted,
}
use obby_client.Proto.Casemap.{CaseFolded}
use obby_client.Client.Model.{
  Model, Whois, whois_named, max_whois_records, stale, first_complete, first_key, remove_stale,
  make_room, renewed, whois_or_insert, whois,
}

contained :
    {V : Type 0} (k : CaseFolded) (m : Map CaseFolded V)
    → OrdMap.contains_key k m ≡ true
    → (v : V) × (OrdMap.get k m ≡ some v)
contained k m h = elim (Option-cases (OrdMap.get k m)) [
  | inl e ↦ cc (e, h, contains_key-get k m)
  | inr (v, e) ↦ (v, e)
]

missing :
    {V : Type 0} (k : CaseFolded) (m : Map CaseFolded V)
    → OrdMap.contains_key k m ≡ false
    → OrdMap.get k m ≡ none
missing k m h = elim (Option-cases (OrdMap.get k m)) [
  | inl e ↦ e
  | inr (v, e) ↦ cc (e, h, contains_key-get k m)
]

first_complete-held :
    (m : Map CaseFolded Whois) {k : CaseFolded}
    → first_complete m ≡ some k
    → OrdMap.contains_key k m ≡ true
unfolding first_complete OrdMap.contains_key
first_complete-held [] h = cc
first_complete-held ((j, r) ∷ m) {k} h =
    ground (arith, first_complete-held m {k = k}, text_ord.beq_iff k j)

-- Where there is a record, one can go.
stale-held :
    (m : Map CaseFolded Whois)
    → 1 ≤ length m
    → (k : CaseFolded) × (stale m ≡ some k) × (OrdMap.contains_key k m ≡ true)
unfolding stale
stale-held [] h = absurd (omega arith)
stale-held ((j, r) ∷ m) h = elim (Option-cases (first_complete ((j, r) ∷ m))) [
  | inl e ↦ (
    j,
    rw e (unfold first_key in refl),
    unfold OrdMap.contains_key in ground (arith, text_ord.beq_iff j j),
  )
  | inr (k, e) ↦ (k, rw e refl, first_complete-held ((j, r) ∷ m) e)
]

get-insert_same :
    (key : CaseFolded) (v : Whois) (m : Map CaseFolded Whois)
    → OrdMap.get key (OrdMap.insert key v m) ≡ some v
get-insert_same key v m = rw (get-insert key key v m, same_refl key) refl

and_false : (b : Bool) → (b && false) ≡ false
and_false b = ground arith

-- Room was made: a record fewer than the limit, or the key has one already.
abbrev HasRoom : CaseFolded → Map CaseFolded Whois → Type 0
HasRoom key m =
    ((v : Whois) × (OrdMap.get key m ≡ some v) × (length m ≤ max_whois_records))
    ⊎ (suc (length m) ≤ max_whois_records)

make_room-HasRoom :
    (key : CaseFolded) (m : Map CaseFolded Whois)
    → length m ≤ max_whois_records
    → HasRoom key (make_room key m)
unfolding make_room remove_stale
make_room-HasRoom key m h = elim (Bool-cases (OrdMap.contains_key key m)) [
  | inl e ↦
      rw (e, and_false (leb max_whois_records (length m)))
        (let (v, g) = contained key m e in inl (v, g, h))
  | inr e ↦ elim (Bool-cases (leb max_whois_records (length m))) [
    | inl f ↦
        let (k, g, c) = stale-held m (ground (arith, f)) in
        let (v, w) = contained k m c in rw (e, f, g) (inr (omega (arith, length-remove-some k m w)))
    | inr f ↦ rw (e, f) (inr (ground (arith, f)))
  ]
]

make_room-get :
    (key : CaseFolded) (m : Map CaseFolded Whois)
    → OrdMap.get key (make_room key m) ≡ OrdMap.get key m
unfolding make_room
make_room-get key m = elim (Bool-cases (OrdMap.contains_key key m)) [
  | inl e ↦ rw (e, and_false (leb max_whois_records (length m))) refl
  | inr e ↦
      if-holds (λ n. OrdMap.get key n ≡ OrdMap.get key m)
        (leb max_whois_records (length m) && not (OrdMap.contains_key key m)) (still (stale m) e)
        refl
]
  where
    still :
        (o : Option CaseFolded)
        → OrdMap.contains_key key m ≡ false
        → OrdMap.get key (remove_stale o m) ≡ OrdMap.get key m
    still none e = refl
    still (some k) e =
        get-remove k key m
        ∙ if-holds (λ o. o ≡ OrdMap.get key m) (text_ord.beq k key) (sym (missing key m e)) refl

make_room-IsSorted :
    (key : CaseFolded) (m : Map CaseFolded Whois) → IsSorted m → IsSorted (make_room key m)
unfolding make_room remove_stale
make_room-IsSorted key m h =
    if-holds IsSorted (leb max_whois_records (length m) && not (OrdMap.contains_key key m))
      (go (stale m)) h
  where
    go : (o : Option CaseFolded) → IsSorted (remove_stale o m)
    go none = h
    go (some k) = remove-IsSorted k m h

inserted :
    (key : CaseFolded) (v : Whois) (m : Map CaseFolded Whois)
    → IsSorted m
    → HasRoom key m
    → length (OrdMap.insert key v m) ≤ max_whois_records
inserted key v m s (inl (w, g, h)) = omega (arith, length-insert-some key v m s g)
inserted key v m s (inr h) = omega (arith, length-insert key v m)

-- The record that a numeric fills in: a new one where none is held, where the reply before it was
-- complete and where the one held has no nick; else the one held.
pub data IsFilledIn (nick : Text) : Option Whois → Whois → Type 0 where
  first : IsFilledIn nick none (whois_named nick)
  again : (r : Whois) → r.complete ≡ true → IsFilledIn nick (some r) (whois_named nick)
  unnamed : (r : Whois) → r.nick ≡ [] → IsFilledIn nick (some r) (whois_named nick)
  going_on : (r : Whois) → r.complete ≡ false → r.nick ≢ [] → IsFilledIn nick (some r) r

renewed-IsFilledIn : (nick : Text) (o : Option Whois) → IsFilledIn nick o (renewed nick o)
unfolding renewed
renewed-IsFilledIn nick none = first
renewed-IsFilledIn nick (some r) = held r r.complete r.nick refl refl
  where
    held :
        (r : Whois) (b : Bool) (s : Text)
        → r.complete ≡ b
        → r.nick ≡ s
        → IsFilledIn nick (some r) (if b || is_nil s then whois_named nick else r)
    held r true s e f = again r e
    held r false [] e f = unnamed r f
    held r false (c ∷ s) e f = going_on r e (λ z. cc (z, f))

module _ {L : Type 0} where
  -- Where the records are in order and no more than 64: whatever nick a server names next, no more
  -- than 64 are held, still in order. The record of that nick is then what the numeric makes of a
  -- new record, where none was held, the one held was complete or it had no nick, and of the one
  -- held otherwise: room is never made by dropping that record.
  pub whois_or_insert-bound :
      (key : CaseFolded) (nick : Text) (change : Whois → Whois) (m : Model L)
      → IsSorted m.whois
      → length m.whois ≤ max_whois_records
      → (length (whois_or_insert key nick change m).whois ≤ max_whois_records)
        × IsSorted (whois_or_insert key nick change m).whois
        × ((r : Whois) × IsFilledIn nick (whois key m) r
            × (whois key (whois_or_insert key nick change m) ≡ some (change r)))
  unfolding whois_or_insert whois
  whois_or_insert-bound key nick change m s h =
      let room = make_room key m.whois in
      let sorted = make_room-IsSorted key m.whois s in
      let v = change (renewed nick (OrdMap.get key room)) in
      (
        inserted key v room sorted (make_room-HasRoom key m.whois h),
        insert-IsSorted key v room sorted,
        (
          renewed nick (OrdMap.get key m.whois),
          renewed-IsFilledIn nick (OrdMap.get key m.whois),
          get-insert_same key v room
              ∙ ap (λ o. some (change (renewed nick o))) (make_room-get key m.whois),
        ),
      )
