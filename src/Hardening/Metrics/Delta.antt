-- ===== src/Hardening/Metrics/Delta.antt =====
-- What two snapshots measure of the calls between them.
use mathlib.Core.Path.{subst}
use reality_hydra.Base.{
  ℕ, ◌+◌, ◌-◌, ◌%◌, ◌^◌, ◌<◌, ◌≡◌, refl, ap, ◌∙◌, ◌⊎◌, inl, inr, Option, none, some, Bool, true,
  false, ◌||◌, List, [], ◌∷◌, map, Bytes, StringMap, get as entry, put, get-put, get-put_other, All,
  arith, text_eq, text_eq_self, text_eq→eq, if◌then◌else◌, Bool-cases,
}
use reality_hydra.Hardening.Metrics.{
  all_names, CounterSet, collect, counter_set, fetch_add, add, inc, get, Snapshot, reading,
  readings, taken, take, or_zero, delta,
}

-- A call on a counter set.
pub data Count : Type 0 where
  inc_of : Bytes → Count
  add_of : Bytes → ℕ → Count

abbrev pub counted : Count → Bytes
counted (inc_of name) = name
counted (add_of name n) = name

abbrev pub amount : Count → ℕ
amount (inc_of name) = 1
amount (add_of name n) = n

-- What the calls add to one counter.
unfoldable pub total : List Count → Bytes → ℕ
total [] name = 0
total (c ∷ cs) name = (if text_eq (counted c) name then amount c else 0) + total cs name

unfoldable pub is_in : List Bytes → Bytes → Bool
is_in [] name = false
is_in (n ∷ ns) name = text_eq n name || is_in ns name

abbrev pub AreKnown : List Count → Type 0
AreKnown cs = All (λ c. is_in all_names (counted c) ≡ true) cs

unfoldable pub step : Count → CounterSet → Option CounterSet
step (inc_of name) set = inc set name
step (add_of name n) set = add set name n

unfoldable pub run : List Count → CounterSet → Option CounterSet
run [] set = some set
run (c ∷ cs) set = elim (step c set) [ none ↦ none | some next ↦ run cs next ]

unfoldable pub between : Option Snapshot → Option Snapshot → Option (List (Bytes × ℕ))
between (some earlier) (some later) = some (delta later earlier)
between _ _ = none

unfoldable pub measured : CounterSet → List Count → Option (List (Bytes × ℕ))
measured set cs = elim (run cs set) [ none ↦ none | some after ↦ between (take set) (take after) ]

-- The delta of a snapshot before and one after the calls `later`, on the counters that had the calls
-- `prior`.
unfoldable pub measured_after : List Count → List Count → Option (List (Bytes × ℕ))
unfolding run measured
measured_after prior later = elim (run prior counter_set) [
  | none ↦ none
  | some set ↦ measured set later
]

collect_lem :
    (f : Bytes → ℕ) (names : List Bytes) (m : StringMap ℕ) (name : Bytes)
    → (is_in names name ≡ true) ⊎ (entry m name ≡ some (f name))
    → entry (collect (map (λ n. (n, f n)) names) m) name ≡ some (f name)
unfolding collect is_in
collect_lem f [] m name (inl e) = cc
collect_lem f [] m name (inr e) = e
collect_lem f (n ∷ ns) m name h =
    collect_lem f ns (put m n (f n)) name (elim (Bool-cases (text_eq n name)) [
      | inl same ↦ inr (
          subst (λ k. entry (put m n (f n)) k ≡ some (f k)) (text_eq→eq n name same)
            (get-put m n (f n)))
      | inr apart ↦ elim h [
        | inl there ↦ inl (ground (arith, apart, there))
        | inr found ↦ inr (get-put_other m n name (f n) apart ∙ found)
      ]
    ])

-- The counters of the standard names hold what was added so far.
abbrev pub Tracks : CounterSet → (Bytes → ℕ) → Type 0
Tracks set f =
    (name : Bytes) → is_in all_names name ≡ true → entry set.counters name ≡ some (f name % 2 ^ 64)

counter_set-Tracks : Tracks counter_set (λ name. 0)
unfolding counter_set
counter_set-Tracks name known = collect_lem (λ n. 0) all_names [] name (inl known)

wraps : (a b : ℕ) → (a % 2 ^ 64 + b) % 2 ^ 64 ≡ (a + b) % 2 ^ 64
wraps a b = omega arith

fetch_add-Tracks :
    (set : CounterSet) (f : Bytes → ℕ) (name : Bytes) (n : ℕ)
    → Tracks set f
    → is_in all_names name ≡ true
    → (next : CounterSet) × (fetch_add set name n (entry set.counters name) ≡ some next)
      × Tracks next (λ k. f k + (if text_eq name k then n else 0))
unfolding fetch_add
fetch_add-Tracks set f name n t known = (
  record { counters = put set.counters name ((f name % 2 ^ 64 + n) % 2 ^ 64) },
  ap (fetch_add set name n) (t name known),
  λ k there. elim (Bool-cases (text_eq name k)) [
    | inl same ↦
        subst
          (λ j.
            entry (put set.counters name ((f name % 2 ^ 64 + n) % 2 ^ 64)) j
            ≡ some ((f j + (if text_eq name j then n else 0)) % 2 ^ 64))
          (text_eq→eq name k same)
          (rw (text_eq_self name) (get-put set.counters name _ ∙ ap some (wraps (f name) n)))
    | inr apart ↦ rw apart (
        get-put_other set.counters name k _ apart
        ∙ t k there
        ∙ ap (λ j. some (j % 2 ^ 64)) {x = f k} {y = f k + 0} (omega arith))
  ],
)

Tracks-cong :
    (set : CounterSet) (f g : Bytes → ℕ)
    → ((name : Bytes) → f name ≡ g name)
    → Tracks set f
    → Tracks set g
Tracks-cong set f g same t name known = t name known ∙ ap (λ n. some (n % 2 ^ 64)) (same name)

step-Tracks :
    (c : Count) (set : CounterSet) (f : Bytes → ℕ)
    → Tracks set f
    → is_in all_names (counted c) ≡ true
    → (next : CounterSet) × (step c set ≡ some next)
      × Tracks next (λ k. f k + (if text_eq (counted c) k then amount c else 0))
unfolding step inc add
step-Tracks (inc_of name) set f t known = fetch_add-Tracks set f name 1 t known
step-Tracks (add_of name n) set f t known = fetch_add-Tracks set f name n t known

run-Tracks :
    (cs : List Count) (set : CounterSet) (f : Bytes → ℕ)
    → Tracks set f
    → AreKnown cs
    → (after : CounterSet) × (run cs set ≡ some after) × Tracks after (λ k. f k + total cs k)
unfolding run total
run-Tracks [] set f t known = (set, refl, Tracks-cong set f (λ k. f k + 0) (λ k. omega arith) t)
run-Tracks (c ∷ cs) set f t known =
    let (next, stepped, tracked) = step-Tracks c set f t known.0 in
    let (after, ran, reached) = run-Tracks cs next _ tracked known.1 in
    (after, rw (run, stepped) ran, Tracks-cong after _ _ (λ k. omega arith) reached)

readings_lem :
    (set : CounterSet) (f : Bytes → ℕ) (names : List Bytes)
    → All (λ name. entry set.counters name ≡ some (f name)) names
    → readings set names ≡ some (map (λ name. (name, f name)) names)
unfolding readings get reading
readings_lem set f [] found = refl
readings_lem set f (name ∷ names) found = rw (found.0, readings_lem set f names found.1) refl

-- The standard names are among themselves.
All-known : All (λ name. is_in all_names name ≡ true) all_names
unfolding all_names is_in text_eq
All-known = (
  refl,
  (refl, (refl, (refl, (refl, (refl, (refl, (refl, (refl, (refl, (refl, (refl, tt))))))))))),
)

All-map :
    {P Q : Bytes → Type 0} (names : List Bytes)
    → ((name : Bytes) → P name → Q name)
    → All P names
    → All Q names
All-map [] f a = tt
All-map (n ∷ ns) f a = (f n a.0, All-map ns f a.1)

take-Tracks :
    (set : CounterSet) (f : Bytes → ℕ)
    → Tracks set f
    → take set ≡ some (record { counters = map (λ name. (name, f name % 2 ^ 64)) all_names })
unfolding take taken
take-Tracks set f t =
    rw (readings_lem set (λ name. f name % 2 ^ 64) all_names (All-map all_names t All-known)) refl

differences :
    (f g d : Bytes → ℕ) (old : StringMap ℕ) (names : List Bytes)
    → All (λ name. entry old name ≡ some (f name)) names
    → All (λ name. g name - f name ≡ d name) names
    → map {B = Bytes × ℕ}
        (λ (c : Bytes × ℕ). (c.0, c.1 - or_zero (entry old c.0)))
        (map {B = Bytes × ℕ} (λ name. (name, g name)) names)
      ≡ map {B = Bytes × ℕ} (λ name. (name, d name)) names
unfolding or_zero
differences f g d old [] found apart = refl
differences f g d old (n ∷ ns) found apart =
    rw (found.0, apart.0, differences f g d old ns found.1 apart.1) refl

no_wrap : (a b : ℕ) → a + b < 2 ^ 64 → (0 + a + b) % 2 ^ 64 - (0 + a) % 2 ^ 64 ≡ b
no_wrap a b fits = omega arith

delta_lem :
    (f g d : Bytes → ℕ)
    → All (λ name. g name - f name ≡ d name) all_names
    → delta
        (record { counters = map (λ name. (name, g name)) all_names })
        (record { counters = map (λ name. (name, f name)) all_names })
      ≡ map (λ name. (name, d name)) all_names
unfolding delta
delta_lem f g d apart =
    differences f g d _ all_names
      (All-map all_names (λ name known. collect_lem f all_names [] name (inl known)) All-known)
      apart

-- Where the calls are on standard names and no counter passes 64 bits, the delta of a snapshot taken
-- after the calls `prior` on new counters and one taken after the calls `later` on top is, for every
-- standard name in order, what `later` adds to it, and nothing panics.
pub measured_after-total :
    (prior later : List Count)
    → AreKnown prior
    → AreKnown later
    → All (λ name. total prior name + total later name < 2 ^ 64) all_names
    → measured_after prior later ≡ some (map (λ name. (name, total later name)) all_names)
unfolding measured_after measured between
measured_after-total prior later known more fits =
    let (set, ran, tracks) = run-Tracks prior counter_set (λ name. 0) counter_set-Tracks known in
    let (after, ran', tracks') = run-Tracks later set _ tracks more in
    rw (measured_after, ran, measured, ran', take-Tracks set _ tracks, take-Tracks after _ tracks')
      (ap some (
        delta_lem _ _ (total later)
          (All-map all_names (λ name. no_wrap (total prior name) (total later name)) fits)))
