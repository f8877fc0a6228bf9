-- ===== src/Client/Scram/Equality.antt =====
-- The comparison of signatures: `constant_time_eq` of crates/obby-client/src/scram.rs.
use obby_client.Base.{
  ℕ, ◌≡◌, ◌↔◌, refl, sym, true, [], ◌∷◌, same, same_iff, length, ◌==◌, Bytes, bit_or, bit_xor,
  bit_or-zero, bit_xor-zero, bit_xor_self, arith, Bool-cases, ==_iff, ==_refl, inl, inr,
}
use obby_client.Client.Scram.{difference, constant_time_eq}

difference-zero :
    (d : ℕ) (a b : Bytes) → length a ≡ length b → difference d a b ≡ 0 → (d ≡ 0) × (a ≡ b)
unfolding difference
difference-zero d [] [] l h = (h, refl)
difference-zero d [] (y ∷ b) l h = absurd (omega arith)
difference-zero d (x ∷ a) [] l h = absurd (omega arith)
difference-zero d (x ∷ a) (y ∷ b) l h =
    let (e, f) = difference-zero (bit_or d (bit_xor x y)) a b (omega arith) h in
    let z = bit_or-zero d (bit_xor x y) e in let xy = bit_xor-zero x y z.1 in (z.0, cc)

difference_self : (a : Bytes) → difference 0 a a ≡ 0
unfolding difference
difference_self [] = refl
difference_self (x ∷ a) = rw (bit_xor_self x) (difference_self a)

accepted : (a b : Bytes) → constant_time_eq a b ≡ true → a ≡ b
unfolding constant_time_eq
accepted a b h = elim (Bool-cases (length a == length b)) [
  | inl e ↦ (difference-zero 0 a b ((==_iff _ _).0 e) ((==_iff _ _).0 (rw e at h))).1
  | inr e ↦ (let k = rw e at h in cc)
]

pub constant_time_eq_refl : (a : Bytes) → constant_time_eq a a ≡ true
unfolding constant_time_eq
constant_time_eq_refl a = rw (==_refl (length a), difference_self a) refl

pub constant_time_eq_iff : (a b : Bytes) → (constant_time_eq a b ≡ true) ↔ (a ≡ b)
constant_time_eq_iff a b = (accepted a b, λ e. rw (sym e) (constant_time_eq_refl a))

-- The comparison that looks at every byte, and folds the differences, is the comparison that stops
-- at the first one: for lists of any lengths it has the same answer.
pub constant_time_eq-same : (a b : Bytes) → constant_time_eq a b ≡ same a b
constant_time_eq-same a b = ground (arith, constant_time_eq_iff a b, same_iff a b)
