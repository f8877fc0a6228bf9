-- ===== src/Client/Inbound/Chunking.antt =====
-- Lines do not depend on how the transport cuts the bytes: `Client::handle_bytes` of
-- crates/obby-client/src/client.rs.
use obby_client.Base.{
  ℕ, zero, suc, ◌≡◌, ◌≢◌, ◌≤◌, refl, ap, sym, ◌∙◌, subst, Bool, true, false, none, some, List, [],
  ◌∷◌, ◌++◌, append-nil, append_assoc, map, split_once, split_once-SplitsAt, SplitsAt, Lacks, All,
  length, length-append, arith, ltb, if◌then◌else◌, ◌==◌, Bytes, Option-cases, Bool-cases, inl, inr,
  ◌⊎◌,
}
use obby_client.Client.Inbound.{
  Framing, new, Arrival, read_line, hold, take_line, read_loop, handle_bytes, max_inbound_line,
}

-- A byte goes in front of the first line, or of what is left where there is no line.
unfoldable pub extend : ℕ → List Bytes × Bytes → List Bytes × Bytes
extend b ([], rest) = ([], b ∷ rest)
extend b (l ∷ ls, rest) = ((b ∷ l) ∷ ls, rest)

-- The lines of a stream, each with its line end, and what is left after the last one.
unfoldable pub lines : Bytes → List Bytes × Bytes
unfolding extend
lines [] = ([], [])
lines (b ∷ s) = if b == b'\n' then ((b ∷ []) ∷ (lines s).0, (lines s).1) else extend b (lines s)

-- No line, and not what is left, is longer than the limit.
abbrev pub Fits : List Bytes × Bytes → Type 0
Fits p = All (λ l. length l ≤ max_inbound_line) p.0 × (length p.1 ≤ max_inbound_line)

-- One read after another.
unfoldable pub handle_all : List Bytes → Framing → Framing × List Arrival
handle_all [] s = (s, [])
handle_all (c ∷ cs) s =
    let first = handle_bytes c s in let rest = handle_all cs first.0 in (rest.0, first.1 ++ rest.1)

unfoldable pub concat : List Bytes → Bytes
concat [] = []
concat (c ∷ cs) = c ++ concat cs

lines_end : (s : Bytes) → lines (b'\n' ∷ s) ≡ ((b'\n' ∷ []) ∷ (lines s).0, (lines s).1)
unfolding lines
lines_end s = refl

lines_other : (b : ℕ) (s : Bytes) → b ≢ b'\n' → lines (b ∷ s) ≡ extend b (lines s)
unfolding lines
lines_other b s h = ground arith

lines-Lacks : (s : Bytes) → Lacks b'\n' s → lines s ≡ ([], s)
unfolding extend
lines-Lacks [] h = unfold lines in refl
lines-Lacks (b ∷ s) h = rw (lines_other b s h.0, lines-Lacks s h.1) refl

lines-line :
    (l s : Bytes)
    → Lacks b'\n' l
    → lines (l ++ (b'\n' ∷ s)) ≡ ((l ++ b'\n' ∷ []) ∷ (lines s).0, (lines s).1)
unfolding extend
lines-line [] s h = lines_end s
lines-line (b ∷ l) s h = rw (lines_other b (l ++ (b'\n' ∷ s)) h.0, lines-line l s h.1) refl

end_cases : (b : ℕ) → (b ≡ b'\n') ⊎ (b ≢ b'\n')
end_cases b = ground arith

-- The rest of the first part goes on in the second.
joined : List Bytes × Bytes → Bytes → List Bytes × Bytes
joined p t = (p.0 ++ (lines (p.1 ++ t)).0, (lines (p.1 ++ t)).1)

extend-joined :
    (b : ℕ) (p : List Bytes × Bytes) (t : Bytes)
    → b ≢ b'\n'
    → extend b (joined p t) ≡ joined (extend b p) t
unfolding extend joined
extend-joined b ([], rest) t h = sym (lines_other b (rest ++ t) h)
extend-joined b (l ∷ ls, rest) t h = refl

lines-append : (s t : Bytes) → lines (s ++ t) ≡ joined (lines s) t
unfolding joined
lines-append [] t = unfold lines in refl
lines-append (b ∷ s) t = elim (end_cases b) [
  | inl e ↦ rw (e, lines_end (s ++ t), lines_end s, lines-append s t) refl
  | inr n ↦
      rw (lines_other b (s ++ t) n, lines_other b s n, lines-append s t)
        (extend-joined b (lines s) t n)
]

extend-Lacks :
    (b : ℕ) (p : List Bytes × Bytes) → b ≢ b'\n' → Lacks b'\n' p.1 → Lacks b'\n' (extend b p).1
unfolding extend
extend-Lacks b ([], rest) h k = (h, k)
extend-Lacks b (l ∷ ls, rest) h k = k

-- What is left has no line end.
lines_rest-Lacks : (s : Bytes) → Lacks b'\n' (lines s).1
lines_rest-Lacks [] = unfold lines in tt
lines_rest-Lacks (b ∷ s) = elim (end_cases b) [
  | inl e ↦ rw (e, lines_end s) (lines_rest-Lacks s)
  | inr n ↦ rw (lines_other b s n) (extend-Lacks b (lines s) n (lines_rest-Lacks s))
]

-- The length of the first line, or of what is left where there is no line.
head_length : List Bytes × Bytes → ℕ
head_length ([], rest) = length rest
head_length (l ∷ ls, rest) = length l

head_length-extend :
    (b : ℕ) (p : List Bytes × Bytes) → head_length (extend b p) ≡ suc (head_length p)
unfolding extend head_length
head_length-extend b ([], rest) = refl
head_length-extend b (l ∷ ls, rest) = refl

head_length-lines : (r t : Bytes) → Lacks b'\n' r → length r ≤ head_length (lines (r ++ t))
head_length-lines [] t h = omega arith
head_length-lines (b ∷ r) t h =
    rw (lines_other b (r ++ t) h.0, head_length-extend b (lines (r ++ t)))
      (omega (arith, head_length-lines r t h.1))

Fits-head_length : (p : List Bytes × Bytes) → Fits p → head_length p ≤ max_inbound_line
unfolding head_length
Fits-head_length ([], rest) h = h.1
Fits-head_length (l ∷ ls, rest) h = h.0.0

All-left : (P : Bytes → Type 0) (xs ys : List Bytes) → All P (xs ++ ys) → All P xs × All P ys
All-left P [] ys h = (tt, h)
All-left P (x ∷ xs) ys h = let (a, b) = All-left P xs ys h.1 in ((h.0, a), b)

-- Where the whole stream fits, so do its first part, and what is left of that with the second.
joined-Fits :
    (p : List Bytes × Bytes) (t : Bytes)
    → Lacks b'\n' p.1
    → Fits (joined p t)
    → Fits p × Fits (lines (p.1 ++ t))
unfolding joined
joined-Fits (ls, r) t h f =
    let (a, b) = All-left (λ l. length l ≤ max_inbound_line) ls (lines (r ++ t)).0 f.0 in
    let k = Fits-head_length (lines (r ++ t)) (b, f.1) in
    ((a, omega (arith, head_length-lines r t h)), (b, f.1))

map-append : (f : Bytes → Arrival) (xs ys : List Bytes) → map f (xs ++ ys) ≡ map f xs ++ map f ys
map-append f [] ys = refl
map-append f (x ∷ xs) ys = ap (λ l. f x ∷ l) (map-append f xs ys)

-- The state between two reads of a stream that fits, and what was read.
abbrev read_so_far : List Bytes × Bytes → Framing × List Arrival
read_so_far p = (record { incomplete = p.1; discarding = false }, map read_line p.0)

hold-short :
    (s : Bytes)
    → length s ≤ max_inbound_line
    → hold s false ≡ (record { incomplete = s; discarding = false }, [])
unfolding hold
hold-short s h = ground arith

read_loop-none :
    (n : ℕ) (s : Bytes) (d : Bool) → split_once b'\n' s ≡ none → read_loop n s d ≡ hold s d
unfolding read_loop
read_loop-none zero s d h = refl
read_loop-none (suc n) s d h = rw (h, read_loop) refl

read_loop-some :
    (n : ℕ) (s l t : Bytes) (d : Bool)
    → split_once b'\n' s ≡ some (l, t)
    → read_loop (suc n) s d ≡ take_line d (l ++ b'\n' ∷ []) (read_loop n t false)
unfolding read_loop
read_loop-some n s l t d h = rw (h, read_loop) refl

at_end :
    (n : ℕ) (s : Bytes)
    → split_once b'\n' s ≡ none
    → Fits (lines s)
    → read_loop n s false ≡ read_so_far (lines s)
at_end n s e f =
    let k : Lacks b'\n' s = subst (SplitsAt b'\n' s) e (split_once-SplitsAt b'\n' s) in
    read_loop-none n s false e ∙ rw (lines-Lacks s k) (hold-short s (rw (lines-Lacks s k) at f).1)

read_loop-lines :
    (n : ℕ) (s : Bytes)
    → length s ≤ n
    → Fits (lines s)
    → read_loop n s false ≡ read_so_far (lines s)
unfolding take_line
read_loop-lines zero [] h f = at_end zero [] (unfold split_once in refl) f
read_loop-lines zero (b ∷ s) h f = absurd (omega arith)
read_loop-lines (suc n) s h f = elim (Option-cases (split_once b'\n' s)) [
  | inl e ↦ at_end (suc n) s e f
  | inr ((l, t), e) ↦
      let (k, m) : (s ≡ l ++ (b'\n' ∷ t)) × Lacks b'\n' l =
        subst (SplitsAt b'\n' s) e (split_once-SplitsAt b'\n' s) in
      let q = ap lines k ∙ lines-line l t m in
      let g : Fits ((l ++ b'\n' ∷ []) ∷ (lines t).0, (lines t).1) = subst Fits q f in
      let size = ap length k in
      read_loop-some n s l t false e
      ∙ ap (take_line false (l ++ b'\n' ∷ []))
          (read_loop-lines n t (omega (arith, length-append l (b'\n' ∷ t))) (g.0.1, g.1))
      ∙ sym (ap read_so_far q)
]

handle_from_held :
    (cs : List Bytes) (held : Bytes)
    → Lacks b'\n' held
    → Fits (lines (held ++ concat cs))
    → handle_all cs (record { incomplete = held; discarding = false })
      ≡ read_so_far (lines (held ++ concat cs))
unfolding handle_all concat handle_bytes joined
handle_from_held [] held h f = rw (append-nil held, lines-Lacks held h) refl
handle_from_held (c ∷ cs) held h f =
    let q =
      ap lines (sym (append_assoc held c (concat cs))) ∙ lines-append (held ++ c) (concat cs) in
    let r = lines_rest-Lacks (held ++ c) in
    let (a, b) = joined-Fits (lines (held ++ c)) (concat cs) r (subst Fits q f) in
    rw
      (
        read_loop-lines (length (held ++ c)) (held ++ c) (omega arith) a,
        handle_from_held cs (lines (held ++ c)).1 r b,
        q,
      )
      (ap
        (λ ls. (
          record {
            incomplete = (lines ((lines (held ++ c)).1 ++ concat cs)).1;
            discarding = false;
          },
          ls,
        ))
        (sym (
          map-append read_line (lines (held ++ c)).0
            (lines ((lines (held ++ c)).1 ++ concat cs)).0)))

-- However the transport cuts a stream into reads, the client handles the lines of the stream, each
-- once and in order, and holds back what is left after the last line end: where no line, the line
-- end included, and not what is left, is longer than the limit.
pub handle_all-lines :
    (cs : List Bytes)
    → Fits (lines (concat cs))
    → handle_all cs new ≡ (
      record { incomplete = (lines (concat cs)).1; discarding = false },
      map read_line (lines (concat cs)).0,
    )
handle_all-lines cs f = handle_from_held cs [] tt f

-- What is held back between two reads: no more bytes than the limit, and no line end.
abbrev pub IsHeld : Framing → Type 0
IsHeld s = (length s.incomplete ≤ max_inbound_line) × Lacks b'\n' s.incomplete

hold-IsHeld : (s : Bytes) (d : Bool) → Lacks b'\n' s → IsHeld (hold s d).0
unfolding hold
hold-IsHeld s d h = elim (Bool-cases (ltb max_inbound_line (length s))) [
  | inl e ↦ rw e (omega arith, tt)
  | inr e ↦ rw e (ground (arith, e), h)
]

take_line-IsHeld :
    (d : Bool) (l : Bytes) (r : Framing × List Arrival) → IsHeld r.0 → IsHeld (take_line d l r).0
unfolding take_line
take_line-IsHeld true l r h = h
take_line-IsHeld false l r h = h

read_loop-IsHeld : (n : ℕ) (s : Bytes) (d : Bool) → length s ≤ n → IsHeld (read_loop n s d).0
read_loop-IsHeld zero [] d h =
    rw (read_loop-none zero [] d (unfold split_once in refl)) (hold-IsHeld [] d tt)
read_loop-IsHeld zero (b ∷ s) d h = absurd (omega arith)
read_loop-IsHeld (suc n) s d h = elim (Option-cases (split_once b'\n' s)) [
  | inl e ↦
      rw (read_loop-none (suc n) s d e)
        (hold-IsHeld s d (subst (SplitsAt b'\n' s) e (split_once-SplitsAt b'\n' s)))
  | inr ((l, t), e) ↦
      let (k, m) : (s ≡ l ++ (b'\n' ∷ t)) × Lacks b'\n' l =
        subst (SplitsAt b'\n' s) e (split_once-SplitsAt b'\n' s) in
      let size = ap length k in
      rw (read_loop-some n s l t d e) (
        take_line-IsHeld d _ (read_loop n t false)
          (read_loop-IsHeld n t false (omega (arith, length-append l (b'\n' ∷ t)))))
]

-- After any read, whatever it held and whatever was held before, the client holds no more bytes than
-- the limit, and none of them is a line end: every whole line was dealt with.
pub handle_bytes-IsHeld : (bytes : Bytes) (s : Framing) → IsHeld (handle_bytes bytes s).0
unfolding handle_bytes
handle_bytes-IsHeld bytes s =
    read_loop-IsHeld (length (s.incomplete ++ bytes)) (s.incomplete ++ bytes) s.discarding
      (omega arith)
