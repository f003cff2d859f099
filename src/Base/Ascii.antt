-- ===== src/Base/Ascii.antt =====
-- Rust's string literals as their bytes: those in ASCII, and any in UTF-8.
use Prim.Native.Char.{code}
use Prim.Native.String.{String, [], ◌∷◌}
use Prim.Native.Nat.{ℕ, ◌+◌, ◌/◌, ◌%◌}
use mathlib.Core.List.{[] as []ᴸ, ◌∷◌ as ◌∷ᴸ◌, ◌++◌}
use reality_hydra.Base.Tests.{ltb, if◌then◌else◌}
use reality_hydra.Base.Words.{Bytes}

unfoldable pub ascii : String → Bytes
ascii [] = []ᴸ
ascii (c ∷ s) = code c ∷ᴸ ascii s

encode_char : ℕ → Bytes
encode_char c =
    if ltb c 0x80
    then c ∷ᴸ []ᴸ
    else if ltb c 0x800
    then (0xC0 + c / 0x40) ∷ᴸ (0x80 + c % 0x40) ∷ᴸ []ᴸ
    else if ltb c 0x10000
    then (0xE0 + c / 0x1000) ∷ᴸ (0x80 + (c / 0x40) % 0x40) ∷ᴸ (0x80 + c % 0x40) ∷ᴸ []ᴸ
    else (0xF0 + c / 0x40000)
      ∷ᴸ (0x80 + (c / 0x1000) % 0x40)
      ∷ᴸ (0x80 + (c / 0x40) % 0x40)
      ∷ᴸ (0x80 + c % 0x40)
      ∷ᴸ []ᴸ

unfoldable pub utf8 : String → Bytes
unfolding encode_char
utf8 [] = []ᴸ
utf8 (c ∷ s) = encode_char (code c) ++ utf8 s
