-- ===== src/Config/Document.antt =====
-- A TOML document as the configuration uses one: its lines, their text, and the tables they make. The
-- text of a configuration is one that crates/hydra-cli/src/init.rs writes; `toml` parses it.
use reality_hydra.Base.{
  ℕ, ◌-◌, ◌/◌, ◌%◌, ◌^◌, ◌&&◌, ◌||◌, not, Bool, true, false, List, [], ◌∷◌, ◌++◌, replicate, Bytes,
  decimal, get, put, Option, none, some, ◌==◌, leb, Result, ok, err, ◌>>=◌, StringMap,
  if◌then◌else◌,
}

-- `tenths n` is the decimal number n / 10 with one place; `column` is a list of texts, one on a line.
pub data Value : Type 0 where
  text : Bytes → Value
  integer : ℕ → Value
  tenths : ℕ → Value
  only : Bytes → Value
  column : List Bytes → Value

-- `pair key pad value behind`: `pad` blanks behind the key, and `behind` the value a comment.
pub data Line : Type 0 where
  remark : Bytes → Line
  pair : Bytes → ℕ → Value → Bytes → Line
  table : Bytes → Line
  array_table : Bytes → Line

unfoldable pub quoted : Bytes → Bytes → Bytes
quoted s rest = b'"' ∷ (s ++ (b'"' ∷ rest))

unfoldable pub column_text : List Bytes → Bytes → Bytes
unfolding quoted
column_text [] rest = b']' ∷ rest
column_text (s ∷ later) rest =
    b' ' ∷ b' ' ∷ b' ' ∷ b' ' ∷ quoted s (b',' ∷ 10 ∷ column_text later rest)

unfoldable pub value_text : Value → Bytes → Bytes
unfolding quoted column_text
value_text (text s) rest = quoted s rest
value_text (integer n) rest = decimal n ++ rest
value_text (tenths n) rest = decimal (n / 10) ++ (b'.' ∷ (decimal (n % 10) ++ rest))
value_text (only s) rest = b'[' ∷ quoted s (b']' ∷ rest)
value_text (column texts) rest = b'[' ∷ 10 ∷ column_text texts rest

-- A line before the text that follows it.
unfoldable pub line_text : Line → Bytes → Bytes
unfolding value_text
line_text (remark s) rest = s ++ (10 ∷ rest)
line_text (pair key pad value behind) rest =
    key ++ (replicate pad 32 ++ (b'=' ∷ b' ' ∷ value_text value (behind ++ (10 ∷ rest))))
line_text (table name) rest = b'[' ∷ (name ++ (b']' ∷ 10 ∷ rest))
line_text (array_table name) rest = b'[' ∷ b'[' ∷ (name ++ (b']' ∷ b']' ∷ 10 ∷ rest))

unfoldable pub document_text : List Line → Bytes
unfolding line_text
document_text [] = []
document_text (line ∷ later) = line_text line (document_text later)

-- Not a control character.
unfoldable pub visible : ℕ → Bool
visible c = leb 32 c && not (c == 127)

-- What stands for itself between quotes: no quote and no backslash either.
unfoldable pub plain_char : ℕ → Bool
unfolding visible
plain_char c = visible c && not (c == 34) && not (c == 92)

unfoldable pub plain_text : Bytes → Bool
unfolding plain_char
plain_text [] = true
plain_text (c ∷ s) = plain_char c && plain_text s

unfoldable pub plain_texts : List Bytes → Bool
plain_texts [] = true
plain_texts (s ∷ later) = plain_text s && plain_texts later

unfoldable pub all_visible : Bytes → Bool
unfolding visible
all_visible [] = true
all_visible (c ∷ s) = visible c && all_visible s

-- Blank, or a comment.
unfoldable pub ignored : Bytes → Bool
unfolding all_visible
ignored [] = true
ignored (c ∷ s) = if c == 32 then ignored s else c == 35 && all_visible s

-- `A-Za-z0-9_-`
unfoldable pub bare_char : ℕ → Bool
bare_char c =
    leb 97 c && leb c 122 || leb 65 c && leb c 90 || leb 48 c && leb c 57 || c == 95 || c == 45

unfoldable pub bare_chars : Bytes → Bool
unfolding bare_char
bare_chars [] = true
bare_chars (c ∷ s) = bare_char c && bare_chars s

unfoldable pub bare : Bytes → Bool
unfolding bare_chars
bare [] = false
bare (c ∷ s) = bare_chars (c ∷ s)

abbrev pub max_i64 : ℕ
max_i64 = 2 ^ 63 - 1

unfoldable pub valid_value : Value → Bool
unfolding plain_text plain_texts
valid_value (text s) = plain_text s
valid_value (integer n) = leb n max_i64
valid_value (tenths n) = leb n max_i64
valid_value (only s) = plain_text s
valid_value (column texts) = plain_texts texts

unfoldable pub valid_line : Line → Bool
unfolding valid_value ignored bare
valid_line (remark s) = ignored s
valid_line (pair key pad value behind) = bare key && valid_value value && ignored behind
valid_line (table name) = bare name
valid_line (array_table name) = bare name

unfoldable pub valid_lines : List Line → Bool
unfolding valid_line
valid_lines [] = true
valid_lines (line ∷ later) = valid_line line && valid_lines later

-- What a key of the document has.
pub data Node : Type 0 where
  leaf : Value → Node
  single : StringMap Value → Node
  elements : List (StringMap Value) → Node

pub data DocumentError : Type 0 where
  repeated : Bytes → DocumentError
  missing : Bytes → DocumentError
  mistyped : Bytes → DocumentError

-- A key is not given twice.
unfoldable pub define :
    {V : Type 0} → StringMap V → Bytes → V → Option V → Result DocumentError (StringMap V)
define m key new none = ok (put m key new)
define m key new (some old) = err (repeated key)

unfoldable pub add_element :
    StringMap Node → Bytes → StringMap Value → Option Node → Result DocumentError (StringMap Node)
add_element m name t none = ok (put m name (elements (t ∷ [])))
add_element m name t (some (elements ts)) = ok (put m name (elements (t ∷ ts)))
add_element m name t (some (leaf v)) = err (repeated name)
add_element m name t (some (single s)) = err (repeated name)

-- The pairs before the next header, and the tables from there on.
unfoldable pub add_line :
    Line
    → StringMap Value × StringMap Node
    → Result DocumentError (StringMap Value × StringMap Node)
unfolding define add_element
add_line (remark s) (here, later) = ok (here, later)
add_line (pair key pad value behind) (here, later) =
    define here key value (get here key) >>= λ extended. ok (extended, later)
add_line (table name) (here, later) =
    define later name (single here) (get later name) >>= λ extended. ok ([], extended)
add_line (array_table name) (here, later) =
    add_element later name here (get later name) >>= λ extended. ok ([], extended)

unfoldable pub tables_of : List Line → Result DocumentError (StringMap Value × StringMap Node)
unfolding add_line
tables_of [] = ok ([], [])
tables_of (line ∷ later) = tables_of later >>= add_line line

-- The pairs before the first header are keys of the document.
unfoldable pub add_pairs : StringMap Value → StringMap Node → Result DocumentError (StringMap Node)
unfolding define
add_pairs [] m = ok m
add_pairs ((key, value) ∷ rest) m = define m key (leaf value) (get m key) >>= add_pairs rest

unfoldable pub document_of : List Line → Result DocumentError (StringMap Node)
unfolding tables_of add_pairs
document_of lines = tables_of lines >>= λ t. add_pairs t.0 t.1
