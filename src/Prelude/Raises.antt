-- ===== src/Prelude/Raises.antt =====
-- A Python call that may raise: the value, or the exception. The program never looks at an
-- exception's class (every handler is `except Exception`), so the class is not kept.
use mathlib.Core.Path.{◌≡◌, refl}
use mathlib.Core.Logic.{◌⊎◌, inl, inr}

pub data Raises {ℓ} (A : Type ℓ) : Type ℓ where
  ok : A → Raises A
  raised : Raises A

infixl 5 ◌>>=◌
abbrev pub ◌>>=◌ {ℓ κ} : {A : Type ℓ} {B : Type κ} → Raises A → (A → Raises B) → Raises B
ok a >>= f = f a
raised >>= f = raised

-- `try: return e` with `except Exception: return d`.
abbrev pub except {ℓ} : {A : Type ℓ} → Raises A → A → A
except (ok a) d = a
except raised d = d

pub Raises-cases {ℓ} : {A : Type ℓ} (m : Raises A) → (m ≡ raised) ⊎ ((a : A) × (m ≡ ok a))
Raises-cases (ok a) = inr (a, refl)
Raises-cases raised = inl refl
