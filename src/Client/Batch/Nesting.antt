-- ===== src/Client/Batch/Nesting.antt =====
-- `is_within` decides whether a batch of the type holds the reference, through any number of
-- parents, and also where the server has named two batches as each other's parent.
use obby_client.Base.{
  ℕ, zero, suc, ◌≤◌, ◌≡◌, ◌≢◌, ◌↔◌, ◌⊎◌, inl, inr, refl, sym, ap, subst, ◌∙◌, true, false, Option,
  none, some, Text, same, same_iff, length, bind, arith, Bool-cases, Option-cases, text_ord,
}
use obby_client.Base.OrdMap
use obby_client.Base.OrdMap.{Map, get-remove}
use obby_client.Base.OrdMap.Sorted.{length-remove-some}
use obby_client.Client.Batch.{OpenBatch, Batches, within_loop, is_within}

-- A batch of the type `kind` is open under the reference, or holds it open through its parents.
pub data Holds (m : Map Text OpenBatch) (kind : Text) : Text → Type 0 where
  here : {r : Text} (b : OpenBatch) → OrdMap.get r m ≡ some b → b.kind ≡ kind → Holds m kind r
  up :
      {r p : Text} (b : OpenBatch)
      → OrdMap.get r m ≡ some b
      → b.parent ≡ some p
      → Holds m kind p
      → Holds m kind r

abbrev parent_of : Map Text OpenBatch → OpenBatch → Option OpenBatch
parent_of m b = bind b.parent (λ p. OrdMap.get p m)

module _ (m : Map Text OpenBatch) (kind : Text) where
  within_loop-none : (n : ℕ) → within_loop n m kind none ≡ false
  unfolding within_loop
  within_loop-none zero = refl
  within_loop-none (suc n) = refl

  within_loop-zero : (o : Option OpenBatch) → within_loop zero m kind o ≡ false
  unfolding within_loop
  within_loop-zero o = refl

  within_loop-here :
      (n : ℕ) (b : OpenBatch) → same b.kind kind ≡ true → within_loop (suc n) m kind (some b) ≡ true
  unfolding within_loop
  within_loop-here n b h = rw h

  within_loop-parent :
      (n : ℕ) (b : OpenBatch)
      → same b.kind kind ≡ false
      → within_loop (suc n) m kind (some b) ≡ within_loop n m kind (parent_of m b)
  unfolding within_loop
  within_loop-parent n b h = rw h

  within_loop-Holds :
      (n : ℕ) (o : Option OpenBatch) (r : Text)
      → OrdMap.get r m ≡ o
      → within_loop n m kind o ≡ true
      → Holds m kind r
  within_loop-Holds zero o r e h = cc (within_loop-zero o)
  within_loop-Holds (suc n) none r e h = cc (within_loop-none (suc n))
  within_loop-Holds (suc n) (some b) r e h = elim (Bool-cases (same b.kind kind)) [
    | inl k ↦ here b e ((same_iff b.kind kind).0 k)
    | inr k ↦ elim (Option-cases b.parent) [
      | inl none_left ↦ cc (
        within_loop-parent n b k,
        ap (λ q. within_loop n m kind (bind q (λ p. OrdMap.get p m))) none_left,
        within_loop-none n,
      )
      | inr (p, pe) ↦ up b e pe (
          within_loop-Holds n (OrdMap.get p m) p refl (
            sym (ap (λ q. within_loop n m kind (bind q (λ x. OrdMap.get x m))) pe)
            ∙ sym (within_loop-parent n b k)
            ∙ h))
    ]
  ]

get-found :
    (m : Map Text OpenBatch) (r q : Text) (c : OpenBatch)
    → OrdMap.get q (OrdMap.remove r m) ≡ some c
    → OrdMap.get q m ≡ some c
get-found m r q c e = ground (arith, get-remove r q m)

within_loop-remove-some :
    (m : Map Text OpenBatch) (kind r : Text) (n : ℕ) (c : OpenBatch)
    → ((p : Text)
        → within_loop n (OrdMap.remove r m) kind (OrdMap.get p (OrdMap.remove r m)) ≡ true
        → within_loop n m kind (OrdMap.get p m) ≡ true)
    → within_loop (suc n) (OrdMap.remove r m) kind (some c) ≡ true
    → within_loop (suc n) m kind (some c) ≡ true
within_loop-remove-some m kind r n c ih h = elim (Bool-cases (same c.kind kind)) [
  | inl k ↦ within_loop-here m kind n c k
  | inr k ↦ elim (Option-cases c.parent) [
    | inl e ↦ cc (
      within_loop-parent (OrdMap.remove r m) kind n c k,
      ap
          (λ q.
            within_loop n (OrdMap.remove r m) kind (bind q (λ p. OrdMap.get p (OrdMap.remove r m))))
          e,
      within_loop-none (OrdMap.remove r m) kind n,
    )
    | inr (p, e) ↦
        within_loop-parent m kind n c k
        ∙ ap (λ q. within_loop n m kind (bind q (λ x. OrdMap.get x m))) e
        ∙ ih p (
            sym (
              ap
                (λ q.
                  within_loop n (OrdMap.remove r m) kind
                    (bind q (λ x. OrdMap.get x (OrdMap.remove r m))))
                e)
            ∙ sym (within_loop-parent (OrdMap.remove r m) kind n c k)
            ∙ h)
  ]
]

-- What is found among fewer batches is found among all of them.
within_loop-remove :
    (m : Map Text OpenBatch) (kind r : Text) (n : ℕ) (q : Text)
    → within_loop n (OrdMap.remove r m) kind (OrdMap.get q (OrdMap.remove r m)) ≡ true
    → within_loop n m kind (OrdMap.get q m) ≡ true
within_loop-remove m kind r zero q h =
    cc (within_loop-zero (OrdMap.remove r m) kind (OrdMap.get q (OrdMap.remove r m)))
within_loop-remove m kind r (suc n) q h = elim (Option-cases (OrdMap.get q (OrdMap.remove r m))) [
  | inl e ↦ cc (within_loop-none (OrdMap.remove r m) kind (suc n), rw e at h)
  | inr (c, e) ↦
      rw (get-found m r q c e)
        (within_loop-remove-some m kind r n c (within_loop-remove m kind r n) (rw e at h))
]

same_batch :
    (m : Map Text OpenBatch) (r q : Text) (b c : OpenBatch)
    → same r q ≡ true
    → OrdMap.get r m ≡ some b
    → OrdMap.get q m ≡ some c
    → b ≡ c
same_batch m r q b c s e f = cc (ap (λ x. OrdMap.get x m) ((same_iff r q).0 s))

same_parent :
    (b c : OpenBatch) (p p' : Text) → b ≡ c → b.parent ≡ some p → c.parent ≡ some p' → p' ≡ p
same_parent b c p p' e pe pf = cc (ap (λ (x : OpenBatch). x.parent) e)

-- A chain to the type either avoids a batch of another type, or its rest behind the last visit
-- of that batch does.
avoid :
    (m : Map Text OpenBatch) (kind r p : Text) (b : OpenBatch)
    → OrdMap.get r m ≡ some b
    → b.kind ≢ kind
    → b.parent ≡ some p
    → {q : Text} → Holds m kind q
    → Holds (OrdMap.remove r m) kind q ⊎ Holds (OrdMap.remove r m) kind p
avoid m kind r p b e k pe (here {r = q} c f l) = elim (Bool-cases (same r q)) [
  | inl s ↦ absurd (k (ap (λ (x : OpenBatch). x.kind) (same_batch m r q b c s e f) ∙ l))
  | inr s ↦ inl (here c (get-remove r q m ∙ rw s f) l)
]
avoid m kind r p b e k pe (up {r = q} {p = p'} c f pf rest) =
    elim (avoid m kind r p b e k pe rest) [
      | inr found ↦ inr found
      | inl found ↦ elim (Bool-cases (same r q)) [
        | inl s ↦ inr (
            subst (λ x. Holds (OrdMap.remove r m) kind x)
              (same_parent b c p p' (same_batch m r q b c s e f) pe pf) found)
        | inr s ↦ inl (up c (get-remove r q m ∙ rw s f) pf found)
      ]
    ]

Holds-within_loop :
    (n : ℕ) (m : Map Text OpenBatch) (kind r : Text)
    → length m ≤ n
    → Holds m kind r
    → within_loop (suc n) m kind (OrdMap.get r m) ≡ true
Holds-within_loop n m kind r l (here b e k) =
    rw e (within_loop-here m kind n b ((same_iff b.kind kind).1 k))
Holds-within_loop zero m kind r l (up b e pe rest) =
    absurd (omega (arith, length-remove-some r m {v = b} e))
Holds-within_loop (suc n) m kind r l (up {p = p} b e pe rest) =
    elim (Bool-cases (same b.kind kind)) [
      | inl k ↦ rw e (within_loop-here m kind (suc n) b k)
      | inr k ↦ rw e (
          within_loop-parent m kind (suc n) b k
          ∙ ap (λ q. within_loop (suc n) m kind (bind q (λ x. OrdMap.get x m))) pe
          ∙ within_loop-remove m kind r (suc n) p (
              Holds-within_loop n (OrdMap.remove r m) kind p
                (omega (arith, length-remove-some r m {v = b} e))
                (either (avoid m kind r p b e (λ x. ne k x) pe rest))))
    ]
  where
    either :
        Holds (OrdMap.remove r m) kind p ⊎ Holds (OrdMap.remove r m) kind p
        → Holds (OrdMap.remove r m) kind p
    either (inl x) = x
    either (inr x) = x

    ne : same b.kind kind ≡ false → b.kind ≢ kind
    ne k x = cc ((same_iff b.kind kind).1 x)

-- `is_within` answers yes exactly when some batch of the type holds the reference.
pub is_within_iff_Holds :
    (s : Batches) (reference kind : Text)
    → (is_within reference kind s ≡ true) ↔ Holds s.by_reference kind reference
unfolding is_within
is_within_iff_Holds s reference kind = (
  within_loop-Holds s.by_reference kind (suc (length s.by_reference)) _ reference refl,
  Holds-within_loop (length s.by_reference) s.by_reference kind reference (omega arith),
)
