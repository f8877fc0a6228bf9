-- ===== src/Proto/Message/Params.antt =====
-- The parameters of a line: the loop ends, and it reads back what `Display` writes.
use native.Mathlib.Numerals.{add-one}
use obby_client.Base.{
  ℕ, zero, suc, ◌+◌, ◌<◌, ◌≡◌, ◌≢◌, refl, sym, ap, ◌∙◌, false, Option, none, some, List, [], ◌∷◌,
  ◌++◌, Text, split_once, split_once-append, split_once-Lacks, split_once-SplitsAt, SplitsAt,
  trim_start, length-trim_start, length, length-append, has_char, any, Lacks, ◌==◌, arith,
  Bool-cases, inl, inr,
}
use obby_client.Proto.Message.{
  param_step, loop_body, params_loop, parse_params, needs_marker, display_params,
}

param_step-ext :
    (t s : Text) (r : Option (Text × Text)) (f g : Text → List Text)
    → SplitsAt b' ' t r
    → ((u : Text) → length u < length t → f u ≡ g u)
    → param_step r s f ≡ param_step r s g
unfolding param_step
param_step-ext t s none f g h e = refl
param_step-ext t s (some (a, b)) f g h e =
    ap (λ l. a ∷ l) (e b (omega (arith, ap length h.0, length-append a (b' ' ∷ b))))

loop_body-ext :
    (t : Text) (f g : Text → List Text)
    → ((u : Text) → length u < length t → f u ≡ g u)
    → loop_body t f ≡ loop_body t g
unfolding loop_body
loop_body-ext [] f g e = refl
loop_body-ext (c ∷ t) f g e = elim (Bool-cases (c == b':')) [
  | inl h ↦ rw h
  | inr h ↦ rw h (param_step-ext (c ∷ t) (c ∷ t) _ f g (split_once-SplitsAt b' ' (c ∷ t)) e)
]

-- Any two amounts of fuel above the length of the text give the same parameters.
params_loop_fuel :
    (n m : ℕ) (s : Text) → length s < n → length s < m → params_loop n s ≡ params_loop m s
unfolding params_loop
params_loop_fuel zero m s h k = absurd (omega arith)
params_loop_fuel (suc n) zero s h k = absurd (omega arith)
params_loop_fuel (suc n) (suc m) s h k =
    loop_body-ext (trim_start b' ' s) (params_loop n) (params_loop m) (λ u l.
      params_loop_fuel n m u (omega (arith, length-trim_start b' ' s))
        (omega (arith, length-trim_start b' ' s)))

loop_body-params :
    (n : ℕ) (s : Text)
    → length s < suc n
    → loop_body (trim_start b' ' s) (params_loop n) ≡ loop_body (trim_start b' ' s) parse_params
unfolding parse_params
loop_body-params n s h = loop_body-ext (trim_start b' ' s) (params_loop n) parse_params (λ u l.
    params_loop_fuel n (length u + 1) u (omega (arith, length-trim_start b' ' s)) (omega arith))

params_start : (s : Text) → parse_params s ≡ loop_body (trim_start b' ' s) (params_loop (length s))
unfolding parse_params params_loop
params_start s = rw add-one refl

-- The loop never runs out of fuel: the parameters satisfy the equation of the loop itself, in
-- which the remainder is read by the whole loop again.
pub parse_params_lem :
    (rest : Text) → parse_params rest ≡ loop_body (trim_start b' ' rest) parse_params
parse_params_lem rest = params_start rest ∙ loop_body-params (length rest) rest (omega arith)

-- A parameter that can stand before another one.
abbrev pub MiddleFits : Text → Type 0
MiddleFits [] = ⊥
MiddleFits (c ∷ p) = (c ≢ b':') × Lacks b' ' (c ∷ p)

abbrev pub ParamsFit : List Text → Type 0
ParamsFit [] = Unit
ParamsFit (p ∷ []) = Unit
ParamsFit (p ∷ q ∷ ps) = MiddleFits p × ParamsFit (q ∷ ps)

trim_space : (s : Text) → trim_start b' ' (b' ' ∷ s) ≡ trim_start b' ' s
unfolding trim_start
trim_space s = refl

pub parse_params-space : (s : Text) → parse_params (b' ' ∷ s) ≡ parse_params s
parse_params-space s =
    parse_params_lem (b' ' ∷ s)
    ∙ ap (λ t. loop_body t parse_params) (trim_space s)
    ∙ sym (parse_params_lem s)

trim_word : (c : ℕ) (s : Text) → c ≢ b' ' → trim_start b' ' (c ∷ s) ≡ c ∷ s
unfolding trim_start
trim_word c s h = ground arith

word_body :
    (c : ℕ) (s : Text)
    → c ≢ b':'
    → loop_body (c ∷ s) parse_params ≡ param_step (split_once b' ' (c ∷ s)) (c ∷ s) parse_params
unfolding loop_body
word_body c s h = ground arith

middle_param : (p s : Text) → MiddleFits p → parse_params (p ++ (b' ' ∷ s)) ≡ p ∷ parse_params s
middle_param [] s h = absurd h
middle_param (c ∷ p) s h =
    parse_params_lem ((c ∷ p) ++ (b' ' ∷ s))
    ∙ ap (λ t. loop_body t parse_params) (trim_word c (p ++ (b' ' ∷ s)) h.1.0)
    ∙ word_body c (p ++ (b' ' ∷ s)) h.0
    ∙ ap (λ r. param_step r (c ∷ (p ++ (b' ' ∷ s))) parse_params)
        (split_once-append b' ' (c ∷ p) s h.1)
    ∙ unfold param_step in refl

has_char-Lacks : (c : ℕ) (s : Text) → has_char s c ≡ false → Lacks c s
unfolding has_char any
has_char-Lacks c [] h = tt
has_char-Lacks c (x ∷ s) h = (ground arith, has_char-Lacks c s (ground arith))

last_param : (p : Text) → needs_marker p ≡ false → parse_params p ≡ p ∷ []
unfolding needs_marker
last_param [] h = cc
last_param (c ∷ p) h =
    let l : Lacks b' ' (c ∷ p) = has_char-Lacks b' ' (c ∷ p) (ground arith) in
    parse_params_lem (c ∷ p)
    ∙ ap (λ t. loop_body t parse_params) (trim_word c p l.0)
    ∙ word_body c p (ground arith)
    ∙ ap (λ r. param_step r (c ∷ p) parse_params) (split_once-Lacks b' ' (c ∷ p) l)
    ∙ unfold param_step in refl

marked_param : (p : Text) → parse_params (b':' ∷ p) ≡ p ∷ []
marked_param p = parse_params_lem (b':' ∷ p) ∙ (unfold trim_start loop_body in refl)

pub display_params-cons :
    (p : Text) (ps : List Text) → (t : Text) × (display_params (p ∷ ps) ≡ b' ' ∷ t)
unfolding display_params
display_params-cons p [] = elim (Bool-cases (needs_marker p)) [
  | inl e ↦ (b':' ∷ p, rw e)
  | inr e ↦ (p, rw e)
]
display_params-cons p (q ∷ ps) = (p ++ display_params (q ∷ ps), refl)

-- What `Display` writes behind the command is read back as the same parameters: the last one may
-- be empty, hold spaces or start with a colon, and the others may not.
pub parse_params-display : (ps : List Text) → ParamsFit ps → parse_params (display_params ps) ≡ ps
unfolding display_params
parse_params-display [] h = parse_params_lem [] ∙ (unfold trim_start loop_body in refl)
parse_params-display (p ∷ []) h = elim (Bool-cases (needs_marker p)) [
  | inl e ↦ rw e (parse_params-space (b':' ∷ p) ∙ marked_param p)
  | inr e ↦ rw e (parse_params-space p ∙ last_param p e)
]
parse_params-display (p ∷ q ∷ ps) h =
    let (t, e) = display_params-cons q ps in
    ap (λ d. parse_params (b' ' ∷ (p ++ d))) e
    ∙ parse_params-space (p ++ (b' ' ∷ t))
    ∙ middle_param p t h.0
    ∙ ap (λ l. p ∷ l)
        (sym (parse_params-space t) ∙ ap parse_params (sym e) ∙ parse_params-display (q ∷ ps) h.1)
