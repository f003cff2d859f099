-- ===== src/Tasks/Version.antt =====
-- xtask/src/main.rs: the version of the toolchain, read off what `rustc --version` prints.
use reality_hydra.Base.{
  ℕ, zero, suc, ◌-◌, ◌^◌, Bool, false, ◌&&◌, ◌||◌, List, [], ◌∷◌, Bytes, Option, none, some, ltb,
  ◌==◌, if◌then◌else◌, white1, white2, white3,
}
use reality_hydra.Config.{parse_u64}

-- The length in bytes of the white space that the text begins with one character of, or 0.
white_width : Bytes → ℕ
unfolding white1 white2 white3
white_width [] = 0
white_width (a ∷ []) = if white1 a then 1 else 0
white_width (a ∷ b ∷ []) = if white1 a then 1 else (if white2 a b then 2 else 0)
white_width (a ∷ b ∷ c ∷ s) =
    if white1 a then 1 else (if white2 a b then 2 else (if white3 a b c then 3 else 0))

keep_in_first : ℕ → List Bytes → List Bytes
keep_in_first c [] = (c ∷ []) ∷ []
keep_in_first c (s ∷ ss) = (c ∷ s) ∷ ss

-- The texts between the white characters; the number is how much of one is still to pass.
between : ℕ → Bytes → List Bytes
unfolding white_width keep_in_first
between skip [] = [] ∷ []
between (suc k) (c ∷ s) = between k s
between zero (c ∷ s) =
    let rest = between zero s in
    let later = between (white_width (c ∷ s) - 1) s in
    if white_width (c ∷ s) == 0 then keep_in_first c rest else [] ∷ later

some_texts : List Bytes → List Bytes
some_texts [] = []
some_texts ([] ∷ ss) = some_texts ss
some_texts ((c ∷ s) ∷ ss) = (c ∷ s) ∷ some_texts ss

-- `str::split_whitespace`
unfoldable pub split_whitespace : Bytes → List Bytes
unfolding between some_texts
split_whitespace s = some_texts (between 0 s)

-- `split('.')`
unfoldable pub split_dots : Bytes → List Bytes
unfolding keep_in_first
split_dots [] = [] ∷ []
split_dots (c ∷ s) = let rest = split_dots s in if c == 46 then [] ∷ rest else keep_in_first c rest

has_dot : Bytes → Bool
has_dot [] = false
has_dot (c ∷ s) = (c == 46) || has_dot s

-- `find(|t| t.contains('.'))`
find_dotted : List Bytes → Option Bytes
unfolding has_dot
find_dotted [] = none
find_dotted (t ∷ ts) = let rest = find_dotted ts in if has_dot t then some t else rest

below_u32 : Option ℕ → Option ℕ
below_u32 none = none
below_u32 (some n) = if ltb n (2 ^ 32) then some n else none

-- `parse::<u32>`
unfoldable pub parse_u32 : Bytes → Option ℕ
unfolding below_u32
parse_u32 s = below_u32 (parse_u64 s)

both : Option ℕ → Option ℕ → Option (ℕ × ℕ)
both (some a) (some b) = some (a, b)
both a b = none

first_two : List Bytes → Option (ℕ × ℕ)
unfolding both parse_u32
first_two (a ∷ b ∷ rest) = both (parse_u32 a) (parse_u32 b)
first_two parts = none

version_of : Option Bytes → Option (ℕ × ℕ)
unfolding first_two split_dots
version_of none = none
version_of (some t) = first_two (split_dots t)

unfoldable pub parse_semver : Bytes → Option (ℕ × ℕ)
unfolding version_of find_dotted split_whitespace
parse_semver s = version_of (find_dotted (split_whitespace s))

-- `(maj, min) < MIN_RUST`
unfoldable pub too_old : ℕ → ℕ → Bool
too_old maj min = ltb maj 1 || ((maj == 1) && ltb min 88)
