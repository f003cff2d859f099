-- ===== src/Base/Utf8.antt =====
-- `str::from_utf8`: the byte sequences that are text, by the table of well-formed sequences.
use Prim.Native.Nat.{ℕ}
use mathlib.Core.Bool.{Bool, true, false, ◌&&◌}
use mathlib.Core.List.{List, [], ◌∷◌}
use reality_hydra.Base.Tests.{ltb, leb, ◌==◌, if◌then◌else◌}

-- What may come next: the first byte of a character, a byte between two bounds that one or two
-- plain continuation bytes follow, or nothing any more.
pub data Utf8State : Type 0 where
  start : Utf8State
  between : ℕ → ℕ → Utf8State → Utf8State
  reject : Utf8State

abbrev pub one_more : Utf8State
one_more = between 0x80 0xBF start

abbrev pub two_more : Utf8State
two_more = between 0x80 0xBF one_more

lead : ℕ → Utf8State
lead b =
    if ltb b 0x80
    then start
    else if leb 0xC2 b && leb b 0xDF
    then one_more
    else if b == 0xE0
    then between 0xA0 0xBF one_more
    else if b == 0xED
    then between 0x80 0x9F one_more
    else if leb 0xE1 b && leb b 0xEF
    then two_more
    else if b == 0xF0
    then between 0x90 0xBF two_more
    else if leb 0xF1 b && leb b 0xF3
    then between 0x80 0xBF two_more
    else if b == 0xF4
    then between 0x80 0x8F two_more
    else reject

unfoldable pub utf8_step : Utf8State → ℕ → Utf8State
unfolding lead
utf8_step start b = lead b
utf8_step (between lo hi next) b = if leb lo b && leb b hi then next else reject
utf8_step reject b = reject

unfoldable pub utf8_run : Utf8State → List ℕ → Bool
unfolding utf8_step
utf8_run start [] = true
utf8_run (between lo hi next) [] = false
utf8_run reject [] = false
utf8_run s (b ∷ bs) = utf8_run (utf8_step s b) bs

unfoldable pub is_utf8 : List ℕ → Bool
unfolding utf8_run
is_utf8 bs = utf8_run start bs
