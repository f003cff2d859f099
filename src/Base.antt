-- ===== src/Base.antt =====
-- The names that the other modules share: the libraries', passed on, and those of the children.
mod Tests
mod Lists
mod Outcome
mod Words
mod Utf8
mod Render
mod Text
mod Assoc
mod Ascii
mod Trim
mod Files
pub mod Sort
pub use Tests.*
pub use Lists.*
pub use Outcome.*
pub use Words.{
  IsByte, Bytes, AreBytes, length-le_bytes, le_bytes-AreBytes, from_le-le_bytes, le_bytes-from_le,
  from_le_bound, length-be_bytes, be_bytes-AreBytes, from_be-be_bytes, be_bytes-from_be,
  from_be_bound,
}
unfoldable pub use Words.{le_bytes, be_bytes, from_le, from_be}
unfoldable pub use Utf8.{is_utf8}
unfoldable pub use Render.{decimal, hex_digit, hex_byte}
pub use Prim.Native.Nat.{ℕ, zero, suc, ◌+◌, ◌-◌, ◌*◌, ◌/◌, ◌%◌, ◌^◌, ◌≤◌, ◌<◌, min, max}
pub use mathlib.Core.Path.{◌≡◌, refl, sym, ap, ◌∙◌}
pub use mathlib.Core.Logic.{◌≢◌, ◌↔◌, ◌⊎◌, inl, inr}
pub use mathlib.Core.Bool.{Bool, true, false, ◌&&◌, ◌||◌, not}
pub use mathlib.Core.Option.{Option, none, some}
pub use mathlib.Core.List.{List, [], ◌∷◌, ◌++◌, map, append-nil, append_assoc}
pub use native.Mathlib.Omega.{arith}
pub use Text.{
  text_eq_self, text_eq→eq, text_eq_iff, text_le_refl, text_le_total, text_le_trans,
  text_le_antisymm, text_eq_apart, text_eq_sym,
}
unfoldable pub use Text.{text_eq, text_le}
pub use Assoc.{StringMap, get-put, get-put_other, get-retain, All-get, All-put, All-retain}
unfoldable pub use Assoc.{get, put, retain}
unfoldable pub use Ascii.{ascii, utf8}
unfoldable pub use Trim.{trim, white1, white2, white3}
pub use Trim.{IsPlain, trim_plain}
pub use Files.{Write, whole, refused, torn, Disk, FileTable, is_some, join_apart}
unfoldable pub use Files.{
  starts_slash, needs_no_slash, join, exists, read_file, write_result, write_file,
}
