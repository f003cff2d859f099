-- ===== src/Health/Covers.antt =====
-- What a name on a certificate covers.
use mathlib.Core.Bool.{false≢true, true≢false}
use reality_hydra.Base.{
  ℕ, ◌≡◌, ◌≢◌, refl, sym, ap, ◌∙◌, ◌⊎◌, inl, inr, true, false, ◌||◌, not, [], ◌∷◌, ◌++◌, Bytes,
  take, drop, take-append-drop, Option, Option-cases, none, some, arith, ◌==◌, if-cases, &&-split,
  ==_iff, text_eq, text_eq→eq,
}
use reality_hydra.Pool.Master.{is_empty}
use reality_hydra.Health.{
  dot, wildcard, has_dot, split_once, push, one_label, matches_pattern, matches_normal,
  dns_name_matches, lower, trim_dots,
}

-- The pattern is `*.rest` with a dot in the rest, and the name one label, not empty and without a dot,
-- before the same rest.
pub record IsWild (sni pattern : Bytes) : Type 0 where
  pub label : Bytes
  pub rest : Bytes
  pub shape : pattern ≡ wildcard ++ rest
  pub name : sni ≡ label ++ (dot ∷ rest)
  pub some_label : label ≢ []
  pub one : has_dot label ≡ false
  pub deep : has_dot rest ≡ true

pub record Split (s first suffix : Bytes) : Type 0 where
  pub whole : s ≡ first ++ (dot ∷ suffix)
  pub plain : has_dot first ≡ false

push-some :
    (b : ℕ) (o : Option (Bytes × Bytes)) {first suffix : Bytes}
    → push b o ≡ some (first, suffix)
    → (f : Bytes) × (o ≡ some (f, suffix)) × (first ≡ b ∷ f)
unfolding push
push-some b none h = cc
push-some b (some (f, x)) {first} {suffix} h =
    let head : first ≡ b ∷ f = cc in
    let tail : x ≡ suffix = cc in (f, ap (λ t. some (f, t)) tail, head)

split_once-Split :
    (s : Bytes) {first suffix : Bytes} → split_once s ≡ some (first, suffix) → Split s first suffix
unfolding split_once has_dot
split_once-Split [] h = cc
split_once-Split (b ∷ s) {first} {suffix} h = elim (if-cases (b == dot) h) [
  | inl here ↦
      let none_before : first ≡ [] = cc in
      let after : suffix ≡ s = cc in
      let is_dot : b ≡ dot = (==_iff b dot).0 here.0 in
      record { whole = rw (none_before, after, is_dot) refl; plain = rw none_before refl }
  | inr on ↦
      let (f, cut, head) = push-some b (split_once s) on.1 in
      let later = split_once-Split s cut in
      record {
        whole = rw head (ap (λ (t : Bytes). b ∷ t) later.whole);
        plain = rw (head, on.0, later.plain) refl;
      }
]

matches_pattern-IsWild :
    (sni pattern : Bytes)
    → matches_pattern sni pattern ≡ true
    → (sni ≡ pattern) ⊎ IsWild sni pattern
unfolding matches_pattern one_label
matches_pattern-IsWild sni pattern h = elim (if-cases (text_eq (take 2 pattern) wildcard) h) [
  | inr exact ↦ inl (text_eq→eq sni pattern exact.1)
  | inl star ↦
      elim (if-cases (is_empty (drop 2 pattern) || not (has_dot (drop 2 pattern))) star.1) [
        | inl shallow ↦ cc
        | inr deep ↦ elim (Option-cases (split_once sni)) [
          | inl whole ↦
              absurd (false≢true (sym (ap (λ o. one_label o (drop 2 pattern)) whole) ∙ deep.1))
          | inr (cut, found) ↦
              let both =
                &&-split (not (is_empty cut.0)) (text_eq cut.1 (drop 2 pattern))
                  (sym (ap (λ o. one_label o (drop 2 pattern)) found) ∙ deep.1) in
              let parts = split_once-Split sni found in
              inr (record {
                label = cut.0;
                rest = drop 2 pattern;
                shape =
                    sym (take-append-drop 2 pattern)
                    ∙ ap (λ t. t ++ drop 2 pattern) (text_eq→eq (take 2 pattern) wildcard star.0);
                name =
                    parts.whole
                    ∙ ap (λ t. cut.0 ++ (dot ∷ t)) (text_eq→eq cut.1 (drop 2 pattern) both.1);
                some_label = λ e. true≢false (sym both.0 ∙ ap (λ l. not (is_empty l)) e);
                one = parts.plain;
                deep = ground (arith, deep.0);
              })
        ]
      ]
]

-- The name in lower case, without the dots at its end.
abbrev pub normal : Bytes → Bytes
normal s = lower (trim_dots s)

-- A name of the certificate covers an SNI only if, in lower case and without the dots at their ends,
-- they are the same, or the name is a wildcard for one label before the rest of the SNI and that rest
-- has a dot of its own.
pub dns_name_matches-IsWild :
    (sni pattern : Bytes)
    → dns_name_matches sni pattern ≡ true
    → (normal sni ≡ normal pattern) ⊎ IsWild (normal sni) (normal pattern)
unfolding dns_name_matches matches_normal
dns_name_matches-IsWild sni pattern h =
    elim (if-cases (is_empty (normal sni) || is_empty (normal pattern)) h) [
      | inl empty ↦ cc
      | inr both ↦ matches_pattern-IsWild (normal sni) (normal pattern) both.1
    ]
