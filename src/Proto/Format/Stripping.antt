-- ===== src/Proto/Format/Stripping.antt =====
-- What is left of a body without its formatting: crates/obby-proto/src/format.rs.
use obby_client.Base.{
  ℕ, zero, suc, ◌≡◌, ◌≢◌, ◌≤◌, refl, sym, ap, ◌∙◌, Bool, true, false, not, ◌||◌, Bool-cases,
  Option-cases, inl, inr, ◌⊎◌, subst, Option, none, some, is_some, List, [], ◌∷◌, ◌++◌, Text,
  length, All, All-append, retain, append_assoc, ◌==◌, arith,
}
use obby_client.Proto.Format.{
  Style, Emphasis, default, Span, Action, push, restyle, action, coloured, emphasised, toggled,
  flush, spans_loop, parse_spans, concat_text, strip_formatting, bold_code, italic_code,
  underline_code, strikethrough_code, monospace_code, reverse_code, reset_code, colour_code,
  hex_colour_code, parse_numbered_colour, parse_hex_colour, Read, Colour,
}
use obby_client.Proto.Format.Reading.{Tail, length-Tail, KeepsTail, action-KeepsTail}

-- The codes that switch one decoration, and those that also reset it.
abbrev pub is_toggle : ℕ → Bool
is_toggle c =
    c == bold_code
    || c == italic_code
    || c == underline_code
    || c == strikethrough_code
    || c == monospace_code
    || c == reverse_code

abbrev pub is_code : ℕ → Bool
is_code c = c == reset_code || c == colour_code || c == hex_colour_code || is_toggle c

abbrev pub keeps : ℕ → Bool
keeps c = not (is_code c)

concat_text-flush :
    (current : Text) (style : Style) (spans : List Span)
    → concat_text (flush current style spans) ≡ current ++ concat_text spans
unfolding concat_text flush
concat_text-flush [] style spans = refl
concat_text-flush (c ∷ s) style spans = refl

toggled_iff : (c : ℕ) (e : Emphasis) → is_some (toggled c e) ≡ is_toggle c
unfolding toggled
toggled_iff c e = ground arith

-- What an action says about its character.
abbrev Suits : ℕ → Action → Type 0
Suits c push = keeps c ≡ true
Suits c (restyle style rest) = keeps c ≡ false

coloured-Suits :
    (c : ℕ) (style : Style) (s : Text) (m : Read (Colour × Option Colour))
    → keeps c ≡ false
    → Suits c (coloured style s m)
unfolding coloured
coloured-Suits c style s none h = h
coloured-Suits c style s (some p) h = h

emphasised-Suits :
    (c : ℕ) (style : Style) (s : Text) (o : Option Emphasis)
    → is_some o ≡ is_toggle c
    → (c == reset_code) ≡ false
    → (c == colour_code) ≡ false
    → (c == hex_colour_code) ≡ false
    → Suits c (emphasised style s o)
unfolding emphasised
emphasised-Suits c style s none e h k l = ground arith
emphasised-Suits c style s (some _) e h k l = ground arith

action-Suits : (c : ℕ) (style : Style) (s : Text) → Suits c (action c style s)
unfolding action
action-Suits c style s = elim (Bool-cases (c == reset_code)) [
  | inl e ↦ rw e (ground arith)
  | inr e ↦ rw e (elim (Bool-cases (c == colour_code)) [
    | inl f ↦ rw f (coloured-Suits c style s (parse_numbered_colour s) (ground arith))
    | inr f ↦ rw f (elim (Bool-cases (c == hex_colour_code)) [
      | inl g ↦ rw g (coloured-Suits c style s (parse_hex_colour s) (ground arith))
      | inr g ↦ rw g (
          emphasised-Suits c style s (toggled c style.emphasis) (toggled_iff c style.emphasis) e f
            g)
    ])
  ])
]

pub Action-cases :
    (a : Action) → (a ≡ push) ⊎ ((style : Style) × (rest : Text) × (a ≡ restyle style rest))
Action-cases push = inl refl
Action-cases (restyle style rest) = inr (style, rest, refl)

-- What is known of a character and of the text behind it, by what it does.
abbrev pub Case : ℕ → Style → Text → Type 0
Case c style s =
    ((action c style s ≡ push) × (keeps c ≡ true))
    ⊎ ((next : Style) × (rest : Text) × (action c style s ≡ restyle next rest)
        × (keeps c ≡ false)
        × Tail rest s)

pub cases_of : (c : ℕ) (style : Style) (s : Text) → Case c style s
cases_of c style s = elim (Action-cases (action c style s)) [
  | inl e ↦ inl (e, subst (Suits c) e (action-Suits c style s))
  | inr (next, rest, e) ↦ inr (
    next,
    rest,
    e,
    subst (Suits c) e (action-Suits c style s),
    subst (KeepsTail s) e (action-KeepsTail c style s),
  )
]

pub spans_loop-push :
    (n : ℕ) (current : Text) (style : Style) (c : ℕ) (s : Text)
    → action c style s ≡ push
    → spans_loop (suc n) current style (c ∷ s) ≡ spans_loop n (current ++ c ∷ []) style s
unfolding spans_loop
spans_loop-push n current style c s e = rw (e, spans_loop) refl

pub spans_loop-restyle :
    (n : ℕ) (current : Text) (style next : Style) (c : ℕ) (s rest : Text)
    → action c style s ≡ restyle next rest
    → spans_loop (suc n) current style (c ∷ s) ≡ flush current style (spans_loop n [] next rest)
unfolding spans_loop
spans_loop-restyle n current style next c s rest e = rw (e, spans_loop) refl

-- Every character satisfies the test.
abbrev pub IsPlain : Text → Type 0
IsPlain s = All (λ c. keeps c ≡ true) s

flush-IsPlain :
    (current : Text) (style : Style) (spans : List Span)
    → IsPlain current
    → IsPlain (concat_text spans)
    → IsPlain (concat_text (flush current style spans))
flush-IsPlain current style spans h k =
    rw (concat_text-flush current style spans)
      (All-append (λ c. keeps c ≡ true) current (concat_text spans) h k)

spans_loop-IsPlain :
    (n : ℕ) (current : Text) (style : Style) (s : Text)
    → length s ≤ n
    → IsPlain current
    → IsPlain (concat_text (spans_loop n current style s))
unfolding spans_loop
spans_loop-IsPlain zero current style [] l h =
    flush-IsPlain current style [] h (unfold concat_text in tt)
spans_loop-IsPlain zero current style (c ∷ s) l h = absurd (omega arith)
spans_loop-IsPlain (suc n) current style [] l h =
    flush-IsPlain current style [] h (unfold concat_text in tt)
spans_loop-IsPlain (suc n) current style (c ∷ s) l h = elim (cases_of c style s) [
  | inl (e, k) ↦ rw (spans_loop-push n current style c s e) (
      spans_loop-IsPlain n (current ++ c ∷ []) style s (omega arith)
        (All-append (λ x. keeps x ≡ true) current (c ∷ []) h (k, tt)))
  | inr (next, rest, e, k, t) ↦ rw (spans_loop-restyle n current style next c s rest e) (
      flush-IsPlain current style _ h
        (spans_loop-IsPlain n [] next rest (omega (arith, length-Tail t)) tt))
]

-- No formatting or colour code is left in a stripped body, whatever it held.
pub strip_formatting-IsPlain : (body : Text) → IsPlain (strip_formatting body)
unfolding strip_formatting parse_spans
strip_formatting-IsPlain body = spans_loop-IsPlain (length body) [] default body (omega arith) tt

abbrev Uncoloured : Text → Type 0
Uncoloured s = All (λ c. (c ≢ colour_code) × (c ≢ hex_colour_code)) s

uncoloured_action :
    (c : ℕ) (style : Style) (s : Text)
    → c ≢ colour_code
    → c ≢ hex_colour_code
    → ((action c style s ≡ push) × (keeps c ≡ true))
      ⊎ ((next : Style) × (action c style s ≡ restyle next s) × (keeps c ≡ false))
unfolding action emphasised
uncoloured_action c style s h k = elim (Bool-cases (c == reset_code)) [
  | inl e ↦ rw e (inr (default, refl, ground arith))
  | inr e ↦ elim (Option-cases (toggled c style.emphasis)) [
    | inl t ↦ inl (ground (arith, t), ground (arith, toggled_iff c style.emphasis, t))
    | inr (m, t) ↦ inr (
      record style { emphasis = m },
      ground (arith, t),
      ground (arith, toggled_iff c style.emphasis, t),
    )
  ]
]

end_of :
    (current : Text) (style : Style)
    → concat_text (flush current style []) ≡ current ++ retain keeps []
unfolding retain
end_of current style = concat_text-flush current style [] ∙ (unfold concat_text in refl)

retain_kept : (c : ℕ) (s : Text) → keeps c ≡ true → retain keeps (c ∷ s) ≡ c ∷ retain keeps s
unfolding retain
retain_kept c s h = rw h refl

retain_dropped : (c : ℕ) (s : Text) → keeps c ≡ false → retain keeps (c ∷ s) ≡ retain keeps s
unfolding retain
retain_dropped c s h = rw h refl

spans_loop-retain :
    (n : ℕ) (current : Text) (style : Style) (s : Text)
    → length s ≤ n
    → Uncoloured s
    → concat_text (spans_loop n current style s) ≡ current ++ retain keeps s
unfolding spans_loop
spans_loop-retain zero current style [] l h = end_of current style
spans_loop-retain zero current style (c ∷ s) l h = absurd (omega arith)
spans_loop-retain (suc n) current style [] l h = end_of current style
spans_loop-retain (suc n) current style (c ∷ s) l h =
    elim (uncoloured_action c style s h.0.0 h.0.1) [
      | inl (e, k) ↦ rw (spans_loop-push n current style c s e) (
          spans_loop-retain n (current ++ c ∷ []) style s (omega arith) h.1
          ∙ (append_assoc current (c ∷ []) (retain keeps s)
              ∙ ap (λ t. current ++ t) (sym (retain_kept c s k))))
      | inr (next, e, k) ↦ rw (spans_loop-restyle n current style next c s s e) (
          concat_text-flush current style _
          ∙ ap (λ t. current ++ t)
              (spans_loop-retain n [] next s (omega arith) h.1 ∙ sym (retain_dropped c s k)))
    ]

-- A body without colour codes is stripped by leaving out the seven codes that toggle or reset,
-- and nothing else: all other characters stay, in order.
pub strip_formatting-retain :
    (body : Text)
    → All (λ c. (c ≢ colour_code) × (c ≢ hex_colour_code)) body
    → strip_formatting body ≡ retain keeps body
unfolding strip_formatting parse_spans
strip_formatting-retain body h = spans_loop-retain (length body) [] default body (omega arith) h

plain-Uncoloured : (s : Text) → IsPlain s → Uncoloured s
plain-Uncoloured [] h = tt
plain-Uncoloured (c ∷ s) h = ((ground arith, ground arith), plain-Uncoloured s h.1)

retain-IsPlain : (s : Text) → IsPlain s → retain keeps s ≡ s
retain-IsPlain [] h = unfold retain in refl
retain-IsPlain (c ∷ s) h = retain_kept c s h.0 ∙ ap (λ t. c ∷ t) (retain-IsPlain s h.1)

-- Stripping a second time changes nothing.
pub strip_formatting_idem :
    (body : Text) → strip_formatting (strip_formatting body) ≡ strip_formatting body
strip_formatting_idem body =
    let h = strip_formatting-IsPlain body in
    strip_formatting-retain (strip_formatting body) (plain-Uncoloured (strip_formatting body) h)
    ∙ retain-IsPlain (strip_formatting body) h
