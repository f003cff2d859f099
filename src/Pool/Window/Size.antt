-- ===== src/Pool/Window/Size.antt =====
-- A list of distinct SNIs is no longer than one that has them all.
use reality_hydra.Base.{
  suc, ◌≤◌, ◌≡◌, refl, sym, ap, ◌∙◌, inl, inr, true, false, ◌||◌, List, [], ◌∷◌, Bytes, length, All,
  text_eq, text_eq→eq, Bool-cases, if◌then◌else◌, arith,
}
use reality_hydra.Pool.{PoolEntry, has_sni}
use reality_hydra.Pool.Master.Valid.{IsDistinct}

module _ {F : Type 0} where
  remove : Bytes → List (PoolEntry F) → List (PoolEntry F)
  remove s [] = []
  remove s (y ∷ ys) = if text_eq y.sni s then ys else y ∷ remove s ys

  length-remove :
      (s : Bytes) (ys : List (PoolEntry F))
      → has_sni ys s ≡ true
      → suc (length (remove s ys)) ≡ length ys
  unfolding remove has_sni
  length-remove s [] h = cc
  length-remove s (y ∷ ys) h = elim (Bool-cases (text_eq y.sni s)) [
    | inl here ↦ rw here refl
    | inr other ↦
        rw other (ap suc (length-remove s ys (sym (ap (λ b. b || has_sni ys s) other) ∙ h)))
  ]

  has_sni-remove :
      (s t : Bytes) (ys : List (PoolEntry F))
      → text_eq s t ≡ false
      → has_sni ys t ≡ true
      → has_sni (remove s ys) t ≡ true
  unfolding remove has_sni
  has_sni-remove s t [] apart h = cc
  has_sni-remove s t (y ∷ ys) apart h = elim (Bool-cases (text_eq y.sni s)) [
    | inl here ↦ rw here (
        sym (ap (λ b. b || has_sni ys t) (ap (λ u. text_eq u t) (text_eq→eq y.sni s here) ∙ apart))
        ∙ h)
    | inr other ↦ rw other (ground (arith, h, has_sni-remove s t ys apart))
  ]

  All-remove :
      (s : Bytes) (xs ys : List (PoolEntry F))
      → All (λ (x : PoolEntry F). text_eq s x.sni ≡ false) xs
      → All (λ (x : PoolEntry F). has_sni ys x.sni ≡ true) xs
      → All (λ (x : PoolEntry F). has_sni (remove s ys) x.sni ≡ true) xs
  All-remove s [] ys apart h = tt
  All-remove s (x ∷ xs) ys apart h =
      (has_sni-remove s x.sni ys apart.0 h.0, All-remove s xs ys apart.1 h.1)

  pub length-IsDistinct :
      (xs ys : List (PoolEntry F))
      → IsDistinct xs
      → All (λ (x : PoolEntry F). has_sni ys x.sni ≡ true) xs
      → length xs ≤ length ys
  length-IsDistinct [] ys d h = omega arith
  length-IsDistinct (x ∷ xs) ys d h = omega (
    arith,
    length-remove x.sni ys h.0,
    length-IsDistinct xs (remove x.sni ys) d.1 (All-remove x.sni xs ys d.0 h.1),
  )
