-- ===== src/Examples/Fixtures.antt =====
-- Concrete parameters for the examples: a checksum for HMAC, whole numbers for `f64`, a counter for
-- the generators.
use reality_hydra.Base.{
  ℕ, zero, suc, ◌+◌, ◌-◌, ◌*◌, ◌/◌, ◌%◌, ◌≡◌, true, [], ◌∷◌, length, replicate, length-replicate,
  Bytes, IsByte, AreBytes, arith, text_eq, text_eq_iff, ltb, leb,
}
use reality_hydra.Proto.{Hmac, Target, v4}
use reality_hydra.Pool.{Floats, Rng, PoolEntry}

unfoldable pub sum : Bytes → ℕ
sum [] = 0
sum (b ∷ bs) = b + sum bs

replicate-AreBytes : (n b : ℕ) → IsByte b → AreBytes (replicate n b)
replicate-AreBytes zero b h = tt
replicate-AreBytes (suc n) b h = (h, replicate-AreBytes n b h)

unfoldable pub checksum : Bytes → Bytes → Bytes
unfolding sum
checksum key msg = replicate 32 ((sum key + sum msg) % 256)

pub checksum-AreBytes : (key msg : Bytes) → AreBytes (checksum key msg)
unfolding checksum
checksum-AreBytes key msg = replicate-AreBytes 32 ((sum key + sum msg) % 256) (omega arith)

pub length-checksum : (key msg : Bytes) → length (checksum key msg) ≡ 32
unfolding checksum
length-checksum key msg = length-replicate 32 ((sum key + sum msg) % 256)

unfoldable pub checksum_hmac : Hmac
unfolding checksum
checksum_hmac = record {
  finalize = checksum;
  verify_slice = λ key msg tag. text_eq tag (checksum key msg);
  length-finalize = length-checksum;
  finalize-AreBytes = checksum-AreBytes;
  verify_slice_iff = λ key msg tag. text_eq_iff tag (checksum key msg);
}

abbrev pub whole_floats : Floats
whole_floats = record {
  F = ℕ;
  zero_f = 0;
  one_f = 100;
  add = λ a b. a + b;
  sub = λ a b. a - b;
  mul = λ a b. a * b;
  div = λ a b. a / b;
  ln = λ a. a;
  is_finite = λ a. true;
  le = leb;
  lt = ltb;
  total_place = λ a. a;
}

abbrev pub counter : Rng ℕ
counter = record { State = ℕ; from_seed = length; random = λ n. n % 7; next = suc }

abbrev pub key : Bytes
key = 1 ∷ 2 ∷ 3 ∷ []

-- 192.0.2.1:443
abbrev pub edge : Target
edge = record { host = v4 (192 ∷ 0 ∷ 2 ∷ 1 ∷ []); port = 443 }

abbrev pub entry_a : PoolEntry ℕ
entry_a = record { sni = b'a' ∷ []; weight = 3 }

abbrev pub entry_b : PoolEntry ℕ
entry_b = record { sni = b'b' ∷ []; weight = 2 }
