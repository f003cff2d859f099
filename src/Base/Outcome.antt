-- ===== src/Base/Outcome.antt =====
-- What a Rust computation comes to: a value, an error value, or a panic.
use mathlib.Core.Path.{◌≡◌, refl}
use mathlib.Core.Option.{Option, none, some}
use mathlib.Core.Bool.{Bool, true, false}

pub data Result {ℓ} (E : Type 0) (A : Type ℓ) : Type ℓ where
  ok : A → Result E A
  err : E → Result E A
  panic : Result E A

infixl 5 ◌>>=◌ ◌>>◌
abbrev pub ◌>>=◌ {ℓ κ} :
    {E : Type 0} {A : Type ℓ} {B : Type κ} → Result E A → (A → Result E B) → Result E B
ok a >>= f = f a
err e >>= f = err e
panic >>= f = panic

abbrev pub ◌>>◌ {ℓ} : {E : Type 0} {B : Type ℓ} → Result E (Unit {0}) → Result E B → Result E B
m >> k = m >>= λ _. k

-- An early `return Err(e)` when the test fails.
abbrev pub ensure : {E : Type 0} → Bool → E → Result E (Unit {0})
ensure true e = ok tt
ensure false e = err e

-- `ok_or`
abbrev pub ok_or {ℓ} : {E : Type 0} {A : Type ℓ} → Option A → E → Result E A
ok_or none e = err e
ok_or (some a) e = ok a

-- `map_err`
abbrev pub map_err {ℓ} : {E F : Type 0} {A : Type ℓ} → (E → F) → Result E A → Result F A
map_err f (ok a) = ok a
map_err f (err e) = err (f e)
map_err f panic = panic

pub ok-injective {ℓ} :
    {E : Type 0} {A : Type ℓ} {a b : A} → ◌≡◌ {A = Result E A} (ok a) (ok b) → a ≡ b
ok-injective e = cc

pub ensure_ok : {E : Type 0} (b : Bool) (e : E) {u : Unit {0}} → ensure b e ≡ ok u → b ≡ true
ensure_ok true e h = refl
ensure_ok false e h = cc

-- A bind that gave a value has the values of both its parts.
pub ok_parts {ℓ κ} :
    {E : Type 0} {A : Type ℓ} {B : Type κ} (m : Result E A) (k : A → Result E B) {v : B}
    → (m >>= k) ≡ ok v
    → (u : A) × (m ≡ ok u) × (k u ≡ ok v)
ok_parts (ok u) k e = (u, refl, e)
ok_parts (err x) k e = cc
ok_parts panic k e = cc

-- A bind that gave a value: what its first part gave, handed to what goes on from there.
pub ok_elim {ℓ κ μ} :
    {E : Type 0} {A : Type ℓ} {B : Type κ} {C : Type μ} (m : Result E A) (f : A → Result E B)
    {b : B}
    → (m >>= f) ≡ ok b
    → ((a : A) → m ≡ ok a → f a ≡ ok b → C)
    → C
ok_elim (ok a) f e k = k a refl e
ok_elim (err x) f e k = cc
ok_elim panic f e k = cc

pub ensure_elim {ℓ κ} :
    {E : Type 0} {B : Type ℓ} {C : Type κ} (t : Bool) (x : E) (f : Unit {0} → Result E B) {b : B}
    → (ensure t x >>= f) ≡ ok b
    → (t ≡ true → f tt ≡ ok b → C)
    → C
ensure_elim true x f e k = k refl e
ensure_elim false x f e k = cc
