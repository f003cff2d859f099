-- ===== src/Base/Assoc.antt =====
-- `HashMap<String, V>` as an association list with one entry for a key.
use mathlib.Core.Path.{◌≡◌, refl, ap, ap₂, subst, ◌∙◌}
use mathlib.Core.Logic.{inl, inr}
use mathlib.Core.Bool.{Bool, true, false}
use mathlib.Core.Option.{Option, none, some}
use mathlib.Core.List.{List, [], ◌∷◌}
use reality_hydra.Base.Tests.{if◌then◌else◌, Bool-cases, if-cases}
use reality_hydra.Base.Lists.{All}
use reality_hydra.Base.Words.{Bytes}
use reality_hydra.Base.Text.{text_eq, text_eq_self, text_eq→eq}

abbrev pub StringMap : Type 0 → Type 0
StringMap V = List (Bytes × V)

some_injective : {A : Type 0} {a b : A} → ◌≡◌ {A = Option A} (some a) (some b) → a ≡ b
some_injective e = cc

module _ {V : Type 0} where
  -- `HashMap::get`
  unfoldable pub get : StringMap V → Bytes → Option V
  get [] key = none
  get ((k, v) ∷ m) key = if text_eq k key then some v else get m key

  -- `HashMap::insert`
  unfoldable pub put : StringMap V → Bytes → V → StringMap V
  put [] key new = (key, new) ∷ []
  put ((k, v) ∷ m) key new = if text_eq k key then (key, new) ∷ m else (k, v) ∷ put m key new

  -- `HashMap::retain`
  unfoldable pub retain : (V → Bool) → StringMap V → StringMap V
  retain keep [] = []
  retain keep ((k, v) ∷ m) = if keep v then (k, v) ∷ retain keep m else retain keep m

  pub get-put : (m : StringMap V) (key : Bytes) (new : V) → get (put m key new) key ≡ some new
  unfolding get put
  get-put [] key new = rw (text_eq_self key) refl
  get-put ((k, v) ∷ m) key new = elim (Bool-cases (text_eq k key)) [
    | inl same ↦ rw (same, text_eq_self key) refl
    | inr other ↦ rw (other, other) (get-put m key new)
  ]

  pub get-put_other :
      (m : StringMap V) (key other : Bytes) (new : V)
      → text_eq key other ≡ false
      → get (put m key new) other ≡ get m other
  unfolding get put
  get-put_other [] key other new ne = rw ne refl
  get-put_other ((k, v) ∷ m) key other new ne = elim (Bool-cases (text_eq k key)) [
    | inl same ↦ rw (same, ne, ap (λ t. text_eq t other) (text_eq→eq k key same), ne) refl
    | inr apart ↦
        rw apart
          (ap (λ r. if text_eq k other then some v else r) (get-put_other m key other new ne))
  ]

  pub get-retain :
      (keep : V → Bool) (m : StringMap V) (key : Bytes) {v : V}
      → get m key ≡ some v
      → keep v ≡ true
      → get (retain keep m) key ≡ some v
  unfolding get retain
  get-retain keep [] key e kept = cc
  get-retain keep ((k, w) ∷ m) key e kept = elim (if-cases (text_eq k key) e) [
    | inl hit ↦
        let stays : keep w ≡ true = ap keep (some_injective hit.1) ∙ kept in rw (stays, hit.0) hit.1
    | inr miss ↦ elim (Bool-cases (keep w)) [
      | inl stays ↦ rw (stays, miss.0) (get-retain keep m key miss.1 kept)
      | inr goes ↦ rw goes (get-retain keep m key miss.1 kept)
    ]
  ]

  -- What holds of every entry holds of what is found, and stays true of what is put and kept.
  pub All-get :
      (P : Bytes × V → Type 0) (m : StringMap V) (key : Bytes) {v : V}
      → All P m
      → get m key ≡ some v
      → P (key, v)
  unfolding get
  All-get P [] key all e = cc
  All-get P ((k, v) ∷ m) key all e = elim (if-cases (text_eq k key) e) [
    | inl hit ↦
        subst (λ p. P p) (ap₂ (λ a b. (a, b)) (text_eq→eq k key hit.0) (some_injective hit.1)) all.0
    | inr miss ↦ All-get P m key all.1 miss.1
  ]

  pub All-put :
      (P : Bytes × V → Type 0) (m : StringMap V) (key : Bytes) (new : V)
      → All P m
      → P (key, new)
      → All P (put m key new)
  unfolding put
  All-put P [] key new all p = (p, tt)
  All-put P ((k, v) ∷ m) key new all p = elim (Bool-cases (text_eq k key)) [
    | inl same ↦ rw same (p, all.1)
    | inr other ↦ rw other (all.0, All-put P m key new all.1 p)
  ]

  pub All-retain :
      (P : Bytes × V → Type 0) (keep : V → Bool) (m : StringMap V) → All P m → All P (retain keep m)
  unfolding retain
  All-retain P keep [] all = tt
  All-retain P keep ((k, v) ∷ m) all = elim (Bool-cases (keep v)) [
    | inl kept ↦ rw kept (all.0, All-retain P keep m all.1)
    | inr dropped ↦ rw dropped (All-retain P keep m all.1)
  ]
