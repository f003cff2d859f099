-- ===== src/Health.antt =====
-- crates/health-checker/src/san.rs: whether a certificate's names cover an SNI.
pub mod Covers
pub mod Check
pub mod Pruned
use reality_hydra.Base.{
  ℕ, ◌+◌, Bool, false, ◌&&◌, ◌||◌, not, List, [], ◌∷◌, Bytes, map, take, drop, Option, none, some,
  leb, ◌==◌, if◌then◌else◌, text_eq,
}
use reality_hydra.Pool.Master.{is_empty}

abbrev pub dot : ℕ
dot = 46

abbrev pub wildcard : Bytes
wildcard = 42 ∷ dot ∷ []

-- `trim_end_matches('.')`
unfoldable pub trim_dots : Bytes → Bytes
trim_dots [] = []
trim_dots (b ∷ s) =
    let rest = trim_dots s in if is_empty rest then (if b == dot then [] else b ∷ []) else b ∷ rest

-- `to_ascii_lowercase`
unfoldable pub lower : Bytes → Bytes
lower s = map (λ b. if leb 65 b && leb b 90 then b + 32 else b) s

-- `contains('.')`
unfoldable pub has_dot : Bytes → Bool
has_dot [] = false
has_dot (b ∷ s) = (b == dot) || has_dot s

push : ℕ → Option (Bytes × Bytes) → Option (Bytes × Bytes)
push b none = none
push b (some (first, suffix)) = some (b ∷ first, suffix)

-- `split_once('.')`
unfoldable pub split_once : Bytes → Option (Bytes × Bytes)
unfolding push
split_once [] = none
split_once (b ∷ s) = let rest = split_once s in if b == dot then some ([], s) else push b rest

-- The `match sni.split_once('.')`.
unfoldable pub one_label : Option (Bytes × Bytes) → Bytes → Bool
one_label none rest = false
one_label (some (first, suffix)) rest = not (is_empty first) && text_eq suffix rest

-- The two kinds of pattern, on normalized names.
unfoldable pub matches_pattern : Bytes → Bytes → Bool
unfolding one_label
matches_pattern sni pattern =
    if text_eq (take 2 pattern) wildcard
    then (if is_empty (drop 2 pattern) || not (has_dot (drop 2 pattern))
        then false
        else one_label (split_once sni) (drop 2 pattern))
    else text_eq sni pattern

unfoldable pub matches_normal : Bytes → Bytes → Bool
unfolding matches_pattern
matches_normal sni pattern =
    if is_empty sni || is_empty pattern then false else matches_pattern sni pattern

unfoldable pub dns_name_matches : Bytes → Bytes → Bool
unfolding matches_normal
dns_name_matches sni pattern = matches_normal (lower (trim_dots sni)) (lower (trim_dots pattern))

unfoldable pub sni_matches_any : Bytes → List Bytes → Bool
sni_matches_any sni [] = false
sni_matches_any sni (san ∷ sans) = dns_name_matches sni san || sni_matches_any sni sans
