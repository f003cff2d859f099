-- ===== src/Proto/Reads.antt =====
-- The guarded reads of the decoder: where they succeed, what they return, and that bytes added
-- behind the buffer change nothing but a `truncated`.
use reality_hydra.Base.{
  ℕ, ◌+◌, ◌-◌, ◌≤◌, ◌<◌, ◌≡◌, refl, ap, [], Bool-cases, ◌∙◌, ◌⊎◌, inl, inr, some, ◌∷◌, ◌++◌, arith,
  length, take, drop, get_elem?, length-append, take-append, drop-append, length-drop,
  take-length-append, drop-length-append, get_elem?-append, get_elem?-lt, leb, Bytes, ok, err,
  panic, ◌>>=◌,
}
use reality_hydra.Proto.{truncated}
use reality_hydra.Proto.Parse.{Parsed, index, slice, need}

pub need_enough : (have want : ℕ) → want ≤ have → need have want ≡ ok tt
unfolding need
need_enough have want h = ground arith

pub need_ok : (have want : ℕ) {u : Unit {0}} → need have want ≡ ok u → want ≤ have
unfolding need
need_ok have want e = ground arith

pub need_short : (have want : ℕ) → have < want → need have want ≡ err (truncated (want - have))
unfolding need
need_short have want h = ground arith

pub need-ne-panic : (have want : ℕ) → ¬ (need have want ≡ panic)
unfolding need
need-ne-panic have want e = ground arith

pub slice_ok :
    (buf : Bytes) (from to : ℕ) {bs : Bytes}
    → slice buf from to ≡ ok bs
    → (from ≤ to) × (to ≤ length buf) × (bs ≡ take (to - from) (drop from buf))
unfolding slice
slice_ok buf from to e = ground arith

pub slice_in_range :
    (buf : Bytes) (from to : ℕ)
    → from ≤ to
    → to ≤ length buf
    → slice buf from to ≡ ok (take (to - from) (drop from buf))
unfolding slice
slice_in_range buf from to h k = ground arith

pub index_in_range : (buf : Bytes) (i : ℕ) → i < length buf → (b : ℕ) × (index buf i ≡ ok b)
unfolding index
index_in_range buf i h = let (b, e) = get_elem?-lt buf i h in (b, rw (e, index))

pub index_ok : (buf : Bytes) (i : ℕ) {b : ℕ} → index buf i ≡ ok b → get_elem? buf i ≡ some b
unfolding index
index_ok buf i e = ground arith

-- A read of a buffer that is known in parts.
pub slice_part :
    (pre mid post : Bytes) (from to : ℕ)
    → from ≡ length pre
    → to ≡ length pre + length mid
    → slice (pre ++ (mid ++ post)) from to ≡ ok mid
slice_part pre mid post from to hf ht =
    let n : to - from ≡ length mid = omega (arith, hf, ht) in
    rw (hf, ht)
      (slice_in_range (pre ++ (mid ++ post)) (length pre) (length pre + length mid) (omega arith)
          (rw (length-append, length-append) (omega arith))
        ∙ ap ok (
            ap (take (length pre + length mid - length pre)) (drop-length-append pre (mid ++ post))
            ∙ ap (λ (k : ℕ). take k (mid ++ post)) {x = length pre + length mid - length pre}
                {y = length mid} (omega arith)
            ∙ take-length-append mid post))

get_elem?-part : (pre post : Bytes) (b : ℕ) → get_elem? (pre ++ (b ∷ post)) (length pre) ≡ some b
get_elem?-part [] post b = refl
get_elem?-part (x ∷ pre) post b = get_elem?-part pre post b

pub index_part : (pre post : Bytes) (b i : ℕ) → i ≡ length pre → index (pre ++ (b ∷ post)) i ≡ ok b
unfolding index
index_part pre post b i e = rw e (rw (get_elem?-part pre post b, index))

-- More bytes behind the buffer.
pub slice-append :
    (buf more : Bytes) (from to : ℕ)
    → to ≤ length buf
    → slice (buf ++ more) from to ≡ slice buf from to
unfolding slice
slice-append buf more from to h = elim (Bool-cases (leb from to)) [
  | inl fits ↦
      let front : take (to - from) (drop from (buf ++ more)) ≡ take (to - from) (drop from buf) =
        ap (take (to - from)) (drop-append from buf more (ground arith))
        ∙ take-append (to - from) (drop from buf) more (ground (arith, length-drop from buf)) in
      ground (arith, front, length-append buf more)
  | inr wrong ↦ rw wrong
]

pub index-append : (buf more : Bytes) (i : ℕ) → i < length buf → index (buf ++ more) i ≡ index buf i
unfolding index
index-append buf more i h = rw (get_elem?-append i buf more h, index)

-- The second result is the first one, unless the first asks for more bytes.
abbrev pub Stable : {A : Type 0} → Parsed A → Parsed A → Type 0
Stable r r' = ((n : ℕ) × (r ≡ err (truncated n))) ⊎ (r' ≡ r)

pub Stable-bind :
    {A B : Type 0} (m m' : Parsed A) (f f' : A → Parsed B)
    → Stable m m'
    → ((a : A) → m ≡ ok a → Stable (f a) (f' a))
    → Stable (m >>= f) (m' >>= f')
Stable-bind (ok a) m' f f' (inl (n, e)) k = cc
Stable-bind (ok a) m' f f' (inr e) k = rw e (k a refl)
Stable-bind (err x) m' f f' (inl (n, e)) k = inl (n, cc)
Stable-bind (err x) m' f f' (inr e) k = inr (rw e)
Stable-bind panic m' f f' (inl (n, e)) k = cc
Stable-bind panic m' f f' (inr e) k = inr (rw e)

pub need-append :
    (buf more : Bytes) (want : ℕ)
    → Stable (need (length buf) want) (need (length (buf ++ more)) want)
unfolding need
need-append buf more want = ground (arith, length-append buf more)
