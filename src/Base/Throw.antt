-- ===== src/Base/Throw.antt =====
-- A computation that may throw: the value, or the thrown error.
use mathlib.Core.Path.{◌≡◌, refl}

pub data Result {ℓ} (E A : Type ℓ) : Type ℓ where
  ok : A → Result E A
  thrown : E → Result E A

infixl 5 ◌>>=◌
abbrev pub ◌>>=◌ {ℓ} : {E A B : Type ℓ} → Result E A → (A → Result E B) → Result E B
ok a >>= f = f a
thrown e >>= f = thrown e

-- What a chain gives comes from what its first step gives.
pub bind_ok {ℓ} :
    {E A B : Type ℓ} (r : Result E A) (f : A → Result E B) (b : B)
    → ◌≡◌ {A = Result E B} (r >>= f) (ok b)
    → (a : A) × (◌≡◌ {A = Result E A} r (ok a)) × (◌≡◌ {A = Result E B} (f a) (ok b))
bind_ok (ok a) f b h = (a, refl, h)
bind_ok (thrown e) f b h = cc

pub ok-injective {ℓ} : {E A : Type ℓ} (a b : A) → ◌≡◌ {A = Result E A} (ok a) (ok b) → a ≡ b
ok-injective a b h = cc
