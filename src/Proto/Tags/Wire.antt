-- ===== src/Proto/Tags/Wire.antt =====
-- The tag section on the wire: `Display` and `Tags::parse`.
use obby_client.Base.{
  ℕ, ◌≡◌, ◌≢◌, refl, ap, ◌∙◌, Option, none, some, List, [], ◌∷◌, ◌++◌, map, append-nil, Text, text,
  arith, All, All-append, Lacks, split_once-append, split_once-Lacks, split, join, split-join,
  retain, any, has_char,
}
use obby_client.Proto.Tags.{
  Tag, Tags, tag, flag, escape_char, escape, unescape, key_of, parse_value, parse_tag, is_part,
  parse, display_value, display_tag, display,
}
use obby_client.Proto.Tags.Escape.{IsWireSafe, unescape-escape, escape-IsWireSafe}

-- An absent value needs a key to show; a value is not empty, since that spells the absent one.
abbrev pub ValueFits : Text → Option Text → Type 0
ValueFits k none = k ≢ []
ValueFits k (some v) = v ≢ []

-- The tags that the wire can express.
abbrev pub IsWireTag : Tag → Type 0
IsWireTag t = Lacks b';' t.key × Lacks b'=' t.key × ValueFits t.key t.value

parse_value-cons :
    (part k : Text) (s : Text) → s ≢ [] → parse_value part (some (k, s)) ≡ tag k (unescape s)
unfolding parse_value
parse_value-cons part k [] h = absurd (h refl)
parse_value-cons part k (c ∷ s) h = refl

escape_char-ne-nil : (c : ℕ) (s : Text) → escape_char c ++ s ≢ []
unfolding escape_char
escape_char-ne-nil c s = ground arith

escape-ne-nil : (v : Text) → v ≢ [] → escape v ≢ []
unfolding escape
escape-ne-nil [] h = h
escape-ne-nil (c ∷ v) h = escape_char-ne-nil c (escape v)

key_of-Lacks : (k : Text) → Lacks b'=' k → key_of k ≡ k
unfolding key_of
key_of-Lacks k h = rw (split_once-Lacks b'=' k h, key_of)

parse_tag-flag : (k : Text) → Lacks b'=' k → parse_tag k ≡ flag k
unfolding parse_tag
parse_tag-flag k h = rw (split_once-Lacks b'=' k h, key_of-Lacks k h)

parse_tag-value :
    (k s : Text) → Lacks b'=' k → s ≢ [] → parse_tag (k ++ (b'=' ∷ s)) ≡ tag k (unescape s)
unfolding parse_tag
parse_tag-value k s h n =
    rw (split_once-append b'=' k s h) (parse_value-cons (k ++ (b'=' ∷ s)) k s n)

parse_tag-display :
    (k : Text) (o : Option Text)
    → Lacks b'=' k
    → ValueFits k o
    → parse_tag (k ++ display_value o) ≡ record { key = k; value = o }
unfolding display_value
parse_tag-display k none h f = rw append-nil (parse_tag-flag k h)
parse_tag-display k (some v) h f =
    parse_tag-value k (escape v) h (escape-ne-nil v f) ∙ ap (tag k) (unescape-escape v)

display_value-Lacks : (o : Option Text) → Lacks b';' (display_value o)
unfolding display_value
display_value-Lacks none = tt
display_value-Lacks (some v) = (omega arith, safe (escape v) (escape-IsWireSafe v))
  where
    safe : (s : Text) → All IsWireSafe s → Lacks b';' s
    safe [] h = tt
    safe (c ∷ s) h = (h.0.0, safe s h.1)

display_value-ne-nil : (k : Text) (o : Option Text) → ValueFits k o → k ++ display_value o ≢ []
unfolding display_value
display_value-ne-nil [] none f = f
display_value-ne-nil [] (some v) f = λ e. cc
display_value-ne-nil (c ∷ k) o f = λ e. cc

escaped-Lacks : (s : Text) → All IsWireSafe s → Lacks b' ' s
escaped-Lacks [] h = tt
escaped-Lacks (c ∷ s) h = (h.0.1, escaped-Lacks s h.1)

display_tag-Lacks : (t : Tag) → Lacks b' ' t.key → Lacks b' ' (display_tag t)
unfolding display_tag display_value
display_tag-Lacks t h = All-append _ t.key (display_value t.value) h (value t.value)
  where
    value : (o : Option Text) → Lacks b' ' (display_value o)
    value none = tt
    value (some v) = (omega arith, escaped-Lacks (escape v) (escape-IsWireSafe v))

-- A tag section holds no space where no key does.
pub display-Lacks : (ts : Tags) → All (λ t. Lacks b' ' t.key) ts → Lacks b' ' (display ts)
unfolding display join
display-Lacks [] h = tt
display-Lacks (t ∷ []) h = display_tag-Lacks t h.0
display-Lacks (t ∷ u ∷ ts) h =
    All-append _ (display_tag t) _ (display_tag-Lacks t h.0)
      (omega arith, display-Lacks (u ∷ ts) h.1)

parts-Lacks : (ts : Tags) → All IsWireTag ts → All (Lacks b';') (map display_tag ts)
unfolding display_tag
parts-Lacks [] h = tt
parts-Lacks (t ∷ ts) h = (
  All-append _ t.key (display_value t.value) h.0.0 (display_value-Lacks t.value),
  parts-Lacks ts h.1,
)

retain-part : (s : Text) (ss : List Text) → s ≢ [] → retain is_part (s ∷ ss) ≡ s ∷ retain is_part ss
unfolding retain
retain-part [] ss h = absurd (h refl)
retain-part (c ∷ s) ss h = refl

parse_parts :
    (ts : Tags) → All IsWireTag ts → map parse_tag (retain is_part (map display_tag ts)) ≡ ts
parse_parts [] h = unfold retain in refl
parse_parts (t ∷ ts) h =
    rw
      (retain-part (display_tag t) (map display_tag ts)
        (unfold display_tag in display_value-ne-nil t.key t.value h.0.2))
      (rw (parse_parts ts h.1)
        (ap (λ u. u ∷ ts) (unfold display_tag in parse_tag-display t.key t.value h.0.1 h.0.2)))

-- Reading back the tag section that was written gives the same tags, in the same order, with
-- duplicates, provided that no key holds `;` or `=`, that a tag without a value has a key, and
-- that no value is empty. The values are arbitrary otherwise.
pub parse_tags-display : (ts : Tags) → All IsWireTag ts → parse (display ts) ≡ ts
unfolding parse display
parse_tags-display [] h = unfold split join retain in refl
parse_tags-display (t ∷ ts) h =
    rw (split-join b';' (display_tag t) (map display_tag ts) (parts-Lacks (t ∷ ts) h))
      (parse_parts (t ∷ ts) h)

unescape-backslash : unescape (text "\\") ≡ []
unfolding unescape has_char any
unescape-backslash = refl

-- A value that consists of one backslash is read as the empty value, not as the absent one.
pub parse_tag-lone_backslash :
    (k : Text) → Lacks b'=' k → parse_tag (k ++ text "=\\") ≡ record { key = k; value = some [] }
parse_tag-lone_backslash k h =
    parse_tag-value k (text "\\") h (λ e. cc) ∙ ap (tag k) unescape-backslash
