-- ===== src/Base/Text.antt =====
-- Rust's `String` as its bytes: equality, and the order of `str::cmp`, which is that of the bytes.
use mathlib.Core.Path.{◌≡◌, refl, subst}
use mathlib.Core.Logic.{◌↔◌, ◌⊎◌, inl, inr}
use mathlib.Core.Bool.{Bool, true, false, ◌&&◌}
use mathlib.Core.List.{[], ◌∷◌}
use native.Mathlib.Omega.{arith}
use reality_hydra.Base.Tests.{Bool-cases, ltb, ◌==◌, if◌then◌else◌}
use reality_hydra.Base.Words.{Bytes}

unfoldable pub text_eq : Bytes → Bytes → Bool
text_eq [] [] = true
text_eq (a ∷ s) (b ∷ t) = (a == b) && text_eq s t
text_eq _ _ = false

-- `s.cmp(&t) != Greater`
unfoldable pub text_le : Bytes → Bytes → Bool
text_le [] t = true
text_le (a ∷ s) [] = false
text_le (a ∷ s) (b ∷ t) = if a == b then text_le s t else ltb a b

pub text_eq_self : (s : Bytes) → text_eq s s ≡ true
unfolding text_eq
text_eq_self [] = refl
text_eq_self (a ∷ s) = ground (arith, text_eq_self s)

pub text_eq→eq : (s t : Bytes) → text_eq s t ≡ true → s ≡ t
unfolding text_eq
text_eq→eq [] [] e = refl
text_eq→eq [] (b ∷ t) e = cc
text_eq→eq (a ∷ s) [] e = cc
text_eq→eq (a ∷ s) (b ∷ t) e = ground (arith, text_eq→eq s t)

pub text_eq_iff : (s t : Bytes) → (text_eq s t ≡ true) ↔ (s ≡ t)
text_eq_iff s t = (text_eq→eq s t, λ e. rw e (text_eq_self t))

pub text_le_refl : (s : Bytes) → text_le s s ≡ true
unfolding text_le
text_le_refl [] = refl
text_le_refl (a ∷ s) = ground (arith, text_le_refl s)

pub text_le_total : (s t : Bytes) → (text_le s t ≡ true) ⊎ (text_le t s ≡ true)
unfolding text_le
text_le_total [] t = inl refl
text_le_total (a ∷ s) [] = inr refl
text_le_total (a ∷ s) (b ∷ t) = ground (arith, text_le_total s t)

pub text_le_trans : (s t u : Bytes) → text_le s t ≡ true → text_le t u ≡ true → text_le s u ≡ true
unfolding text_le
text_le_trans [] t u p q = refl
text_le_trans (a ∷ s) [] u p q = cc
text_le_trans (a ∷ s) (b ∷ t) [] p q = cc
text_le_trans (a ∷ s) (b ∷ t) (c ∷ u) p q = ground (arith, text_le_trans s t u)

pub text_le_antisymm : (s t : Bytes) → text_le s t ≡ true → text_le t s ≡ true → s ≡ t
unfolding text_le
text_le_antisymm [] [] p q = refl
text_le_antisymm [] (b ∷ t) p q = cc
text_le_antisymm (a ∷ s) [] p q = cc
text_le_antisymm (a ∷ s) (b ∷ t) p q = ground (arith, text_le_antisymm s t)

-- Between two texts in order and a third after them.
pub text_eq_apart :
    (s t u : Bytes)
    → text_le s t ≡ true
    → text_eq s t ≡ false
    → text_le t u ≡ true
    → text_eq s u ≡ false
text_eq_apart s t u le ne after = elim (Bool-cases (text_eq s u)) [
  | inl same ↦
      let back : text_le t s ≡ true = rw (text_eq→eq s u same) after in
      let meet : text_eq s t ≡ true =
        subst (λ z. text_eq s z ≡ true) (text_le_antisymm s t le back) (text_eq_self s) in
      cc
  | inr other ↦ other
]

pub text_eq_sym : (s t : Bytes) → text_eq s t ≡ false → text_eq t s ≡ false
text_eq_sym s t h = elim (Bool-cases (text_eq t s)) [
  | inl same ↦ let meet : text_eq s t ≡ true = rw (text_eq→eq t s same) (text_eq_self s) in cc
  | inr other ↦ other
]
