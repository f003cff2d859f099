-- ===== src/Pool/Master/Valid.antt =====
-- What `MasterList::new` accepts, and what the list it makes is.
use mathlib.Core.Path.{subst}
use mathlib.Core.List.{Permᴰ}
use reality_hydra.Base.{
  ◌≢◌, ap, sym, ◌∙◌, length, ℕ, suc, ◌≡◌, refl, ◌↔◌, inl, inr, true, false, List, [], ◌∷◌, text_eq,
  text_le, text_le_total, text_le_trans, text_eq_apart, text_eq_sym, All, arith, ok, Bool-cases,
  if-cases, ok_elim, ok-injective,
}
use reality_hydra.Base.Sort.{
  insert, sort, length-sort, IsSorted, sort-perm, sort-IsSorted, All-insert, All-sort,
}
use reality_hydra.Pool.{Floats, PoolEntry, MasterList, by_sni}
use reality_hydra.Pool.Master.{is_empty, bad_weight, check_entries, check_pairs, new}

module _ {F : Type 0} where
  -- No SNI stands twice in the list.
  abbrev pub IsDistinct : List (PoolEntry F) → Type 0
  IsDistinct [] = Unit
  IsDistinct (e ∷ es) = All (λ y. text_eq e.sni y.sni ≡ false) es × IsDistinct es

  insert-IsDistinct :
      (e : PoolEntry F) (es : List (PoolEntry F))
      → All (λ y. text_eq e.sni y.sni ≡ false) es
      → IsDistinct es
      → IsDistinct (insert by_sni e es)
  unfolding insert
  insert-IsDistinct e [] h d = (tt, tt)
  insert-IsDistinct e (y ∷ ys) h d = elim (Bool-cases (text_le e.sni y.sni)) [
    | inl first ↦ rw first (h, d)
    | inr later ↦ rw later (
      All-insert by_sni (λ z. text_eq y.sni z.sni ≡ false) e ys (text_eq_sym e.sni y.sni h.0) d.0,
      insert-IsDistinct e ys h.1 d.1,
    )
  ]

  pub sort-IsDistinct : (es : List (PoolEntry F)) → IsDistinct es → IsDistinct (sort by_sni es)
  unfolding sort
  sort-IsDistinct [] d = tt
  sort-IsDistinct (e ∷ es) d =
      insert-IsDistinct e (sort by_sni es)
        (All-sort by_sni (λ y. text_eq e.sni y.sni ≡ false) es d.0) (sort-IsDistinct es d.1)

  pub by_sni-IsSorted : (es : List (PoolEntry F)) → IsSorted by_sni (sort by_sni es)
  by_sni-IsSorted es =
      sort-IsSorted by_sni (λ a b. text_le_total a.sni b.sni)
        (λ a b c. text_le_trans a.sni b.sni c.sni) es

module _ (fl : Floats) where
  -- A non-empty SNI and a finite weight above 0.
  abbrev pub IsValid : PoolEntry fl.F → Type 0
  IsValid e = (is_empty e.sni ≡ false) × (bad_weight fl e.weight ≡ false)

  pub check_entries_iff :
      (index : ℕ) (es : List (PoolEntry fl.F))
      → (check_entries fl index es ≡ ok tt) ↔ All IsValid es
  unfolding check_entries
  check_entries_iff index [] = (λ _. tt, λ _. refl)
  check_entries_iff index (e ∷ es) =
      let rest = check_entries_iff (suc index) es in
      (λ h. ground (arith, rest.0), λ h. ground (arith, rest.1))

  -- In a sorted list equal SNIs stand side by side.
  apart :
      (a b : PoolEntry fl.F) (rest : List (PoolEntry fl.F))
      → text_le a.sni b.sni ≡ true
      → text_eq a.sni b.sni ≡ false
      → All (λ y. text_le b.sni y.sni ≡ true) rest
      → All (λ y. text_eq a.sni y.sni ≡ false) rest
  apart a b [] le ne h = tt
  apart a b (y ∷ rest) le ne h =
      (text_eq_apart a.sni b.sni y.sni le ne h.0, apart a b rest le ne h.1)

  check_pairs-IsDistinct :
      (es : List (PoolEntry fl.F)) → IsSorted by_sni es → check_pairs fl es ≡ ok tt → IsDistinct es
  unfolding check_pairs
  check_pairs-IsDistinct [] s h = tt
  check_pairs-IsDistinct (a ∷ []) s h = (tt, tt)
  check_pairs-IsDistinct (a ∷ (b ∷ rest)) s h = elim (if-cases (text_eq a.sni b.sni) h) [
    | inl same ↦ cc
    | inr other ↦ (
      (other.0, apart a b rest s.0.0 other.0 s.1.0),
      check_pairs-IsDistinct (b ∷ rest) s.1 other.1,
    )
  ]

  IsDistinct-check_pairs : (es : List (PoolEntry fl.F)) → IsDistinct es → check_pairs fl es ≡ ok tt
  unfolding check_pairs
  IsDistinct-check_pairs [] d = refl
  IsDistinct-check_pairs (a ∷ []) d = refl
  IsDistinct-check_pairs (a ∷ (b ∷ rest)) d = rw (d.0.0) (IsDistinct-check_pairs (b ∷ rest) d.1)

  -- An accepted list is the given entries in strictly ascending order of their SNIs, each of them
  -- valid.
  pub new-IsDistinct :
      (es : List (PoolEntry fl.F)) {m : MasterList fl.F}
      → new fl es ≡ ok m
      → Permᴰ m.entries es
        × All IsValid m.entries
        × IsSorted by_sni m.entries
        × IsDistinct m.entries
  unfolding new
  new-IsDistinct [] h = cc
  new-IsDistinct (e ∷ es) {m} h = ok_elim (check_entries fl 0 (e ∷ es)) _ h (λ _ valid pairs.
      ok_elim (check_pairs fl (sort by_sni (e ∷ es))) _ pairs (λ _ distinct made.
        subst
          (λ r.
            Permᴰ r.entries (e ∷ es)
            × All IsValid r.entries
            × IsSorted by_sni r.entries
            × IsDistinct r.entries)
          (ok-injective made)
          (
            sort-perm by_sni (e ∷ es),
            All-sort by_sni IsValid (e ∷ es) ((check_entries_iff 0 (e ∷ es)).0 valid),
            by_sni-IsSorted (e ∷ es),
            check_pairs-IsDistinct (sort by_sni (e ∷ es)) (by_sni-IsSorted (e ∷ es)) distinct,
          )))

  -- A non-empty list of valid entries with distinct SNIs is accepted, as its sorted self.
  pub new_accepts :
      (e : PoolEntry fl.F) (es : List (PoolEntry fl.F))
      → All IsValid (e ∷ es)
      → IsDistinct (e ∷ es)
      → new fl (e ∷ es) ≡ ok (record { entries = sort by_sni (e ∷ es) })
  unfolding new
  new_accepts e es v d =
      rw
        (
          (check_entries_iff 0 (e ∷ es)).1 v,
          IsDistinct-check_pairs (sort by_sni (e ∷ es)) (sort-IsDistinct (e ∷ es) d),
        )
        refl

  -- The list it makes has an entry.
  pub new_some :
      (given : List (PoolEntry fl.F)) {master : MasterList fl.F}
      → new fl given ≡ ok master
      → master.entries ≢ []
  unfolding new
  new_some [] h = cc
  new_some (e ∷ es) {master} h = ok_elim (check_entries fl 0 (e ∷ es)) _ h (λ u checked on.
      ok_elim (check_pairs fl (sort by_sni (e ∷ es))) _ on (λ v apart made.
        let size : length master.entries ≡ suc (length es) =
          sym (ap (λ (m : MasterList fl.F). length m.entries) (ok-injective made))
          ∙ length-sort by_sni (e ∷ es) in
        λ none. omega (arith, sym (ap length none) ∙ size)))
