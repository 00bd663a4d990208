-- ===== src/Options/Result.antt =====
-- A value, or an exception.
use boostcache.Prelude.{◌≡◌, refl, Option, none, some}
use boostcache.Exception.{Thrown}

pub data Result {ℓ} (A : Type ℓ) : Type ℓ where
  returned : A → Result A
  thrown : Thrown → Result A

infixl 5 ◌>>=◌
abbrev pub ◌>>=◌ {ℓ κ} : {A : Type ℓ} {B : Type κ} → Result A → (A → Result B) → Result B
returned a >>= f = f a
thrown what >>= f = thrown what

-- A cast that fails throws.
abbrev pub or_throw {ℓ} : {A : Type ℓ} → Thrown → Option A → Result A
or_throw what (some a) = returned a
or_throw what none = thrown what

pub >>=-returned {ℓ κ} :
    {A : Type ℓ} {B : Type κ} (m : Result A) (f : A → Result B) {b : B}
    → (m >>= f) ≡ returned b
    → (a : A) × (m ≡ returned a) × (f a ≡ returned b)
>>=-returned (returned a) f h = (a, refl, h)
>>=-returned (thrown what) f h = cc
