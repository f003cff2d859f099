-- ===== src/Base/Files.antt =====
-- `std::path` for Unix and `std::fs` on a table of the files. What the system answers is given: which
-- files may be read, which directories made, and how each write ends.
use Prim.Native.Nat.{ℕ}
use mathlib.Core.Path.{◌≡◌, refl, ◌∙◌}
use mathlib.Core.Logic.{inl, inr}
use mathlib.Core.Bool.{Bool, true, false}
use mathlib.Core.Option.{Option, none, some}
use mathlib.Core.List.{[], ◌∷◌, ◌++◌}
use native.Mathlib.Omega.{arith}
use reality_hydra.Base.Lists.{take}
use reality_hydra.Base.Tests.{◌==◌, if◌then◌else◌, Bool-cases}
use reality_hydra.Base.Words.{Bytes}
use reality_hydra.Base.Text.{text_eq}
use reality_hydra.Base.Assoc.{StringMap, get, put}

unfoldable pub starts_slash : Bytes → Bool
starts_slash [] = false
starts_slash (b ∷ bs) = b == 47

-- Whether a file name behind the path needs no separator: the path is empty or ends in one.
unfoldable pub needs_no_slash : Bytes → Bool
needs_no_slash [] = true
needs_no_slash (b ∷ []) = b == 47
needs_no_slash (b ∷ c ∷ bs) = needs_no_slash (c ∷ bs)

-- `Path::join`: an absolute path takes the place of the whole.
unfoldable pub join : Bytes → Bytes → Bytes
unfolding starts_slash needs_no_slash
join dir file =
    if starts_slash file
    then file
    else (if needs_no_slash dir then dir ++ file else dir ++ (47 ∷ file))

-- How a write ends: whole, with the file as it was, or with the file cut after so many bytes.
pub data Write : Type 0 where
  whole : Write
  refused : Write
  torn : ℕ → Write

pub record Disk : Type 0 where
  pub can_read : Bytes → Bool
  pub can_make : Bytes → Bool
  pub writes : Bytes → Write

abbrev pub FileTable : Type 0
FileTable = StringMap Bytes

abbrev pub is_some : {A : Type 0} → Option A → Bool
is_some none = false
is_some (some a) = true

-- `Path::exists`
unfoldable pub exists : FileTable → Bytes → Bool
exists files path = is_some (get files path)

-- `std::fs::read`, `none` for its error.
unfoldable pub read_file : Disk → FileTable → Bytes → Option Bytes
read_file disk files path = if disk.can_read path then get files path else none

unfoldable pub write_result : FileTable → Bytes → Bytes → Write → FileTable × Bool
write_result files path contents whole = (put files path contents, true)
write_result files path contents refused = (files, false)
write_result files path contents (torn n) = (put files path (take n contents), false)

-- `std::fs::write`: the files after it, and whether it succeeded.
unfoldable pub write_file : Disk → FileTable → Bytes → Bytes → FileTable × Bool
unfolding write_result
write_file disk files path contents = write_result files path contents (disk.writes path)

text_eq-append : (p s t : Bytes) → text_eq (p ++ s) (p ++ t) ≡ text_eq s t
unfolding text_eq
text_eq-append [] s t = refl
text_eq-append (b ∷ p) s t = ground (arith, text_eq-append p s t)

-- Two file names of one directory are two paths.
pub join_apart :
    (dir s t : Bytes)
    → starts_slash s ≡ false
    → starts_slash t ≡ false
    → text_eq s t ≡ false
    → text_eq (join dir s) (join dir t) ≡ false
unfolding join text_eq
join_apart dir s t plain plain' apart = elim (Bool-cases (needs_no_slash dir)) [
  | inl close ↦ rw (plain, plain', close) (text_eq-append dir s t ∙ apart)
  | inr open_ ↦ rw (plain, plain', open_) (text_eq-append dir (47 ∷ s) (47 ∷ t) ∙ apart)
]
