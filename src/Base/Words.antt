-- ===== src/Base/Words.antt =====
-- Bytes and Rust's `to_le_bytes`, `to_be_bytes` and their inverses, at any width.
use Prim.Native.Nat.{ℕ, zero, suc, ◌+◌, ◌*◌, ◌/◌, ◌%◌, ◌^◌, ◌<◌}
use mathlib.Core.Path.{◌≡◌, refl, ap, ap₂, ◌∙◌, subst}
use mathlib.Core.List.{List, [], ◌∷◌, reverse, reverse-reverse, reverse-cons}
use native.Mathlib.Omega.{arith}
use native.Mathlib.Nat.{pow-suc}
use reality_hydra.Base.Lists.{length, All, length-append, All-append}

abbrev pub IsByte : ℕ → Type 0
IsByte b = b < 256

abbrev pub Bytes : Type 0
Bytes = List ℕ

abbrev pub AreBytes : Bytes → Type 0
AreBytes bs = All IsByte bs

-- The lowest byte first; the value is cut to `n` bytes.
unfoldable pub le_bytes : ℕ → ℕ → Bytes
le_bytes zero x = []
le_bytes (suc n) x = (x % 256) ∷ le_bytes n (x / 256)

unfoldable pub from_le : Bytes → ℕ
from_le [] = 0
from_le (b ∷ bs) = b + 256 * from_le bs

unfoldable pub be_bytes : ℕ → ℕ → Bytes
be_bytes n x = reverse (le_bytes n x)

unfoldable pub from_be : Bytes → ℕ
from_be bs = from_le (reverse bs)

pub length-le_bytes : (n x : ℕ) → length (le_bytes n x) ≡ n
unfolding le_bytes
length-le_bytes zero x = refl
length-le_bytes (suc n) x = ap suc (length-le_bytes n (x / 256))

pub le_bytes-AreBytes : (n x : ℕ) → AreBytes (le_bytes n x)
unfolding le_bytes
le_bytes-AreBytes zero x = tt
le_bytes-AreBytes (suc n) x = (omega arith, le_bytes-AreBytes n (x / 256))

pub from_le-le_bytes : (n x : ℕ) → x < 256 ^ n → from_le (le_bytes n x) ≡ x
unfolding le_bytes from_le
from_le-le_bytes zero x h = omega arith
from_le-le_bytes (suc n) x h =
    let q : x < 256 * 256 ^ n = omega (arith, pow-suc 256 n) in
    omega (arith, from_le-le_bytes n (x / 256) (omega arith))

pub le_bytes-from_le : (bs : Bytes) → AreBytes bs → le_bytes (length bs) (from_le bs) ≡ bs
unfolding le_bytes from_le
le_bytes-from_le [] h = refl
le_bytes-from_le (b ∷ bs) h =
    let low : (b + 256 * from_le bs) % 256 ≡ b = omega (arith, h.0) in
    let high : (b + 256 * from_le bs) / 256 ≡ from_le bs = omega (arith, h.0) in
    ap₂ ◌∷◌ low (ap (le_bytes (length bs)) high ∙ le_bytes-from_le bs h.1)

from_le-lt : (bs : Bytes) → AreBytes bs → from_le bs < 256 ^ length bs
unfolding from_le
from_le-lt [] h = omega arith
from_le-lt (b ∷ bs) h = omega (arith, h.0, from_le-lt bs h.1, pow-suc 256 (length bs))

pub from_le_bound : (bs : Bytes) (n : ℕ) → AreBytes bs → length bs ≡ n → from_le bs < 256 ^ n
from_le_bound bs n h e = subst (λ (m : ℕ). from_le bs < 256 ^ m) e (from_le-lt bs h)

length-reverse : (bs : Bytes) → length (reverse bs) ≡ length bs
length-reverse [] = refl
length-reverse (b ∷ bs) =
    ap length (reverse-cons b bs)
    ∙ length-append (reverse bs) (b ∷ [])
    ∙ omega (arith, length-reverse bs)

reverse-AreBytes : (bs : Bytes) → AreBytes bs → AreBytes (reverse bs)
reverse-AreBytes [] h = tt
reverse-AreBytes (b ∷ bs) h =
    rw reverse-cons (All-append IsByte (reverse bs) (b ∷ []) (reverse-AreBytes bs h.1) (h.0, tt))

pub length-be_bytes : (n x : ℕ) → length (be_bytes n x) ≡ n
unfolding be_bytes
length-be_bytes n x = length-reverse (le_bytes n x) ∙ length-le_bytes n x

pub be_bytes-AreBytes : (n x : ℕ) → AreBytes (be_bytes n x)
unfolding be_bytes
be_bytes-AreBytes n x = reverse-AreBytes (le_bytes n x) (le_bytes-AreBytes n x)

pub from_be-be_bytes : (n x : ℕ) → x < 256 ^ n → from_be (be_bytes n x) ≡ x
unfolding be_bytes from_be
from_be-be_bytes n x h = rw reverse-reverse (from_le-le_bytes n x h)

pub be_bytes-from_be : (bs : Bytes) → AreBytes bs → be_bytes (length bs) (from_be bs) ≡ bs
unfolding be_bytes from_be
be_bytes-from_be bs h =
    ap (λ (n : ℕ). reverse (le_bytes n (from_le (reverse bs)))) (omega (arith, length-reverse bs))
    ∙ ap reverse (le_bytes-from_le (reverse bs) (reverse-AreBytes bs h))
    ∙ reverse-reverse bs

pub from_be_bound : (bs : Bytes) (n : ℕ) → AreBytes bs → length bs ≡ n → from_be bs < 256 ^ n
unfolding from_be
from_be_bound bs n h e =
    from_le_bound (reverse bs) n (reverse-AreBytes bs h) (length-reverse bs ∙ e)
