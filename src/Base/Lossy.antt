-- ===== src/Base/Lossy.antt =====
-- `String::from_utf8_lossy`: where the bytes are not UTF-8, each longest start of a sequence that
-- breaks off is read as one replacement character.
use Prim.Native.Nat.{ℕ, zero, suc}
use mathlib.Core.Bool.{Bool, ◌&&◌}
use mathlib.Core.Option.{none, some}
use mathlib.Core.List.{[], ◌∷◌}
use obby_client.Base.Tests.{ltb, leb, ◌==◌, if◌then◌else◌}
use obby_client.Base.Lists.{length}
use obby_client.Base.Texts.{Text}
use obby_client.Base.Utf8.{Bytes, decode_char, is_tail}

abbrev replacement : ℕ
replacement = 65533

-- The second bytes that can follow a first byte.
abbrev may_follow : ℕ → ℕ → Bool
may_follow a b =
    if a == 224
    then leb 160 b && ltb b 192
    else if a == 237
    then leb 128 b && ltb b 160
    else if a == 240
    then leb 144 b && ltb b 192
    else if a == 244
    then leb 128 b && ltb b 144
    else leb 224 a && ltb a 245 && is_tail b

-- What is left after the start of a broken sequence: its first byte, and the bytes that go on well.
after_third : ℕ → Bytes → Bytes
after_third a [] = []
after_third a (c ∷ s) = if leb 240 a && is_tail c then s else c ∷ s

unfoldable pub after_broken : ℕ → Bytes → Bytes
unfolding after_third
after_broken a [] = []
after_broken a (b ∷ s) = if may_follow a b then after_third a s else b ∷ s

unfoldable pub lossy_loop : ℕ → Bytes → Text
lossy_loop n [] = []
lossy_loop zero (a ∷ s) = []
lossy_loop (suc n) (a ∷ s) = elim (decode_char a s) [
  | none ↦ replacement ∷ lossy_loop n (after_broken a s)
  | some r ↦ r.0 ∷ lossy_loop n r.1
]

unfoldable pub from_utf8_lossy : Bytes → Text
unfolding lossy_loop
from_utf8_lossy s = lossy_loop (length s) s
