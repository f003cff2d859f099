-- ===== src/Pool/Master/Order.antt =====
-- Two parties that ship the same entries in another order have the same master list.
use mathlib.Core.Path.{ap₂, subst}
use mathlib.Core.List.{Permᴰ}
use mathlib.Core.List.Permᴰ.{nil, cons, swap, trans, length-eq}
use reality_hydra.Base.{
  ◌≡◌, refl, sym, ap, ◌∙◌, ◌⊎◌, inl, inr, true, false, List, [], ◌∷◌, Bytes, text_eq, text_le,
  text_eq_iff, text_eq_sym, text_le_total, text_le_trans, text_le_antisymm, All, arith, ok,
}
use reality_hydra.Base.Sort.{insert, sort}
use reality_hydra.Pool.{Floats, PoolEntry, MasterList, by_sni}
use reality_hydra.Pool.Master.{new}
use reality_hydra.Pool.Master.Valid.{IsDistinct, IsValid, new_accepts, new-IsDistinct}

pub All-Permᴰ : {A : Type 0} (P : A → Type 0) {xs ys : List A} → Permᴰ xs ys → All P xs → All P ys
All-Permᴰ P nil h = tt
All-Permᴰ P (cons e p) h = (subst P e h.0, All-Permᴰ P p h.1)
All-Permᴰ P (swap e f) h = (subst P f h.1.0, (subst P e h.0, h.1.1))
All-Permᴰ P (trans p q) h = All-Permᴰ P q (All-Permᴰ P p h)

-- Of two different texts exactly one is before the other.
text_le_strict :
    (s t : Bytes)
    → text_eq s t ≡ false
    → ((text_le s t ≡ true) × (text_le t s ≡ false))
      ⊎ ((text_le s t ≡ false) × (text_le t s ≡ true))
text_le_strict s t ne = ground (arith, text_le_total s t, text_le_antisymm s t, text_eq_iff s t)

module _ {F : Type 0} where
  insert_swap :
      (a b : PoolEntry F) (es : List (PoolEntry F))
      → text_eq a.sni b.sni ≡ false
      → insert by_sni a (insert by_sni b es) ≡ insert by_sni b (insert by_sni a es)
  unfolding insert
  insert_swap a b [] ne = elim (text_le_strict a.sni b.sni ne) [
    | inl ab ↦ rw (ab.0, ab.1) refl
    | inr ba ↦ rw (ba.0, ba.1) refl
  ]
  insert_swap a b (y ∷ ys) ne = ground (
    arith,
    text_le_strict a.sni b.sni ne,
    text_le_trans a.sni b.sni y.sni,
    text_le_trans b.sni a.sni y.sni,
    insert_swap a b ys ne,
  )

  pub IsDistinct-Permᴰ : {es fs : List (PoolEntry F)} → Permᴰ es fs → IsDistinct es → IsDistinct fs
  IsDistinct-Permᴰ nil d = tt
  IsDistinct-Permᴰ (cons {a} {l₂ = l} e p) d = (
    subst (λ (x : PoolEntry F). All (λ (y : PoolEntry F). text_eq x.sni y.sni ≡ false) l) e
        (All-Permᴰ (λ (y : PoolEntry F). text_eq a.sni y.sni ≡ false) p d.0),
    IsDistinct-Permᴰ p d.1,
  )
  IsDistinct-Permᴰ (swap {a} {b} {a'} {l = l} e f) d =
      subst (λ x. IsDistinct (a' ∷ x ∷ l)) e
        (subst (λ x. IsDistinct (x ∷ a ∷ l)) f
          ((text_eq_sym a.sni b.sni d.0.0, d.1.0), (d.0.1, d.1.1)))
  IsDistinct-Permᴰ (trans p q) d = IsDistinct-Permᴰ q (IsDistinct-Permᴰ p d)

  pub sort-Permᴰ :
      {es fs : List (PoolEntry F)} → Permᴰ es fs → IsDistinct es → sort by_sni es ≡ sort by_sni fs
  unfolding sort
  sort-Permᴰ nil d = refl
  sort-Permᴰ (cons e p) d = ap₂ (insert by_sni) e (sort-Permᴰ p d.1)
  sort-Permᴰ (swap {a} {b} {l = l} e f) d =
      insert_swap a b (sort by_sni l) d.0.0
      ∙ ap₂ (insert by_sni) f (ap (λ x. insert by_sni x (sort by_sni l)) e)
  sort-Permᴰ (trans p q) d = sort-Permᴰ p d ∙ sort-Permᴰ q (IsDistinct-Permᴰ p d)

module _ (fl : Floats) where
  -- When a list is accepted, so is every other order of its entries, as the same master list.
  pub new_any_order :
      (es fs : List (PoolEntry fl.F)) {m : MasterList fl.F}
      → Permᴰ es fs
      → new fl es ≡ ok m
      → new fl fs ≡ ok m
  unfolding new
  new_any_order [] fs p h = cc
  new_any_order (e ∷ es) [] p h = let l = length-eq p in cc
  new_any_order (e ∷ es) (f ∷ fs) {m} p h =
      let made = new-IsDistinct fl (e ∷ es) h in
      let distinct = IsDistinct-Permᴰ made.0 made.3 in
      let valid = All-Permᴰ (IsValid fl) made.0 made.1 in
      new_accepts fl f fs (All-Permᴰ (IsValid fl) p valid) (IsDistinct-Permᴰ p distinct)
      ∙ ap (λ l. ok (record { entries = l })) (sym (sort-Permᴰ p distinct))
      ∙ sym (new_accepts fl e es valid distinct)
      ∙ h
