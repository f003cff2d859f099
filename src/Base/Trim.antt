-- ===== src/Base/Trim.antt =====
-- `str::trim`: the characters of the Unicode property White_Space, as UTF-8.
use Prim.Native.Nat.{ℕ, ◌≤◌, ◌<◌}
use mathlib.Core.Path.{◌≡◌, refl, ap, ◌∙◌, sym, subst}
use native.Mathlib.Omega.{arith}
use reality_hydra.Base.Lists.{All, All-append}
use mathlib.Core.Bool.{Bool, ◌&&◌, ◌||◌}
use mathlib.Core.List.{[], ◌∷◌, reverse, reverse-reverse, reverse-cons}
use reality_hydra.Base.Tests.{leb, ◌==◌, if◌then◌else◌}
use reality_hydra.Base.Words.{Bytes}

unfoldable pub white1 : ℕ → Bool
white1 a = leb 9 a && leb a 13 || (a == 32)

unfoldable pub white2 : ℕ → ℕ → Bool
white2 a b = (a == 0xC2) && ((b == 0x85) || (b == 0xA0))

unfoldable pub white_e2 : ℕ → ℕ → Bool
white_e2 b c =
    (b == 0x80) && (leb 0x80 c && leb c 0x8A || (c == 0xA8) || (c == 0xA9) || (c == 0xAF))
    || (b == 0x81) && (c == 0x9F)

unfoldable pub white3 : ℕ → ℕ → ℕ → Bool
white3 a b c =
    (a == 0xE1) && (b == 0x9A) && (c == 0x80)
    || (a == 0xE2) && white_e2 b c
    || (a == 0xE3) && (b == 0x80) && (c == 0x80)

-- `trim_start`
trim_start : Bytes → Bytes
trim_start [] = []
trim_start (a ∷ []) = if white1 a then [] else a ∷ []
trim_start (a ∷ b ∷ []) =
    let rest = trim_start (b ∷ []) in
    if white1 a then rest else (if white2 a b then [] else a ∷ b ∷ [])
trim_start (a ∷ b ∷ c ∷ s) =
    let rest1 = trim_start (b ∷ c ∷ s) in
    let rest2 = trim_start (c ∷ s) in
    let rest3 = trim_start s in
    if white1 a
    then rest1
    else (if white2 a b then rest2 else (if white3 a b c then rest3 else a ∷ b ∷ c ∷ s))

-- `trim_end`, on the bytes from the last one back.
trim_back : Bytes → Bytes
trim_back [] = []
trim_back (a ∷ []) = if white1 a then [] else a ∷ []
trim_back (b ∷ a ∷ []) =
    let rest = trim_back (a ∷ []) in
    if white1 b then rest else (if white2 a b then [] else b ∷ a ∷ [])
trim_back (c ∷ b ∷ a ∷ s) =
    let rest1 = trim_back (b ∷ a ∷ s) in
    let rest2 = trim_back (a ∷ s) in
    let rest3 = trim_back s in
    if white1 c
    then rest1
    else (if white2 b c then rest2 else (if white3 a b c then rest3 else c ∷ b ∷ a ∷ s))

unfoldable pub trim : Bytes → Bytes
unfolding trim_start trim_back white1 white2 white3 white_e2
trim s = reverse (trim_back (reverse (trim_start s)))

-- An ASCII byte past the white space.
abbrev pub IsPlain : ℕ → Type 0
IsPlain b = (33 ≤ b) × (b < 128)

trim_start_plain : (s : Bytes) → All IsPlain s → trim_start s ≡ s
unfolding trim_start white1 white2 white3
trim_start_plain [] h = refl
trim_start_plain (a ∷ []) h = ground (arith, h.0)
trim_start_plain (a ∷ b ∷ []) h = ground (arith, h.0)
trim_start_plain (a ∷ b ∷ c ∷ s) h = ground (arith, h.0)

trim_back_plain : (s : Bytes) → All IsPlain s → trim_back s ≡ s
unfolding trim_back white1 white2 white3
trim_back_plain [] h = refl
trim_back_plain (a ∷ []) h = ground (arith, h.0)
trim_back_plain (b ∷ a ∷ []) h = ground (arith, h.0, h.1.0)
trim_back_plain (c ∷ b ∷ a ∷ s) h = ground (arith, h.0, h.1.0, h.1.1.0)

All-reverse : (P : ℕ → Type 0) (s : Bytes) → All P s → All P (reverse s)
All-reverse P [] h = tt
All-reverse P (b ∷ s) h =
    subst (All P) (sym (reverse-cons b s))
      (All-append P (reverse s) (b ∷ []) (All-reverse P s h.1) (h.0, tt))

pub trim_plain : (s : Bytes) → All IsPlain s → trim s ≡ s
unfolding trim
trim_plain s h =
    ap (λ t. reverse (trim_back (reverse t))) (trim_start_plain s h)
    ∙ ap reverse (trim_back_plain (reverse s) (All-reverse IsPlain s h))
    ∙ reverse-reverse s
