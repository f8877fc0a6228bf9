-- ===== src/Proto/Format/Fuel.antt =====
-- The loop over a body takes as many rounds as there are characters at most:
-- crates/obby-proto/src/format.rs.
use obby_client.Base.{
  ℕ, zero, suc, ◌≡◌, ◌≢◌, ◌≤◌, refl, sym, ap, ◌∙◌, inl, inr, List, [], ◌∷◌, ◌++◌, Text, length, All,
  arith,
}
use obby_client.Proto.Format.{Style, Span, default, flush, spans_loop, parse_spans}
use obby_client.Proto.Format.Reading.{length-Tail}
use obby_client.Proto.Format.Stripping.{cases_of, spans_loop-push, spans_loop-restyle}

pub spans_loop-fuel :
    (n k : ℕ) (current : Text) (style : Style) (s : Text)
    → length s ≤ n
    → length s ≤ k
    → spans_loop n current style s ≡ spans_loop k current style s
unfolding spans_loop
spans_loop-fuel zero zero current style [] l m = refl
spans_loop-fuel zero (suc k) current style [] l m = refl
spans_loop-fuel (suc n) zero current style [] l m = refl
spans_loop-fuel (suc n) (suc k) current style [] l m = refl
spans_loop-fuel zero k current style (c ∷ s) l m = absurd (omega arith)
spans_loop-fuel (suc n) zero current style (c ∷ s) l m = absurd (omega arith)
spans_loop-fuel (suc n) (suc k) current style (c ∷ s) l m = elim (cases_of c style s) [
  | inl (e, _) ↦
      spans_loop-push n current style c s e
      ∙ (spans_loop-fuel n k (current ++ c ∷ []) style s (omega arith) (omega arith)
          ∙ sym (spans_loop-push k current style c s e))
  | inr (next, rest, e, _, t) ↦
      spans_loop-restyle n current style next c s rest e
      ∙ (ap (flush current style) (
            spans_loop-fuel n k [] next rest (omega (arith, length-Tail t))
              (omega (arith, length-Tail t)))
          ∙ sym (spans_loop-restyle k current style next c s rest e))
]

abbrev IsFull : Span → Type 0
IsFull p = p.text ≢ []

flush-IsFull :
    (current : Text) (style : Style) (spans : List Span)
    → All IsFull spans
    → All IsFull (flush current style spans)
unfolding flush
flush-IsFull [] style spans h = h
flush-IsFull (c ∷ s) style spans h = ((λ e. cc), h)

spans_loop-IsFull :
    (n : ℕ) (current : Text) (style : Style) (s : Text)
    → length s ≤ n
    → All IsFull (spans_loop n current style s)
unfolding spans_loop
spans_loop-IsFull zero current style s l = flush-IsFull current style [] tt
spans_loop-IsFull (suc n) current style [] l = flush-IsFull current style [] tt
spans_loop-IsFull (suc n) current style (c ∷ s) l = elim (cases_of c style s) [
  | inl (e, _) ↦
      rw (spans_loop-push n current style c s e)
        (spans_loop-IsFull n (current ++ c ∷ []) style s (omega arith))
  | inr (next, rest, e, _, t) ↦ rw (spans_loop-restyle n current style next c s rest e) (
      flush-IsFull current style _
        (spans_loop-IsFull n [] next rest (omega (arith, length-Tail t))))
]

-- The rounds never run out: any larger number of them gives the same spans. No span is empty.
pub parse_spans-fuel :
    (body : Text) (n : ℕ)
    → length body ≤ n
    → (parse_spans body ≡ spans_loop n [] default body) × All (λ p. p.text ≢ []) (parse_spans body)
unfolding parse_spans
parse_spans-fuel body n h = (
  spans_loop-fuel (length body) n [] default body (omega arith) h,
  spans_loop-IsFull (length body) [] default body (omega arith),
)
