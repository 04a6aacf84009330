-- ===== src/UserTasks/Attempt.antt =====
-- A handler with early returns: it goes on, or it returns a JsonResult, or it raises.
use ygvcs_py.Prelude.{Bool, ◌≡◌, refl, arith, true, false, Option, none, some}
use ygvcs_py.Prelude.Raises.{Raises, ok, raised}
use ygvcs_py.Tasks.Reply.{JsonResult}

pub data Attempt (A : Type 0) : Type 0 where
  goes_on : A → Attempt A
  returns : JsonResult → Attempt A
  raises : Attempt A

infixl 5 ◌>>=◌
unfoldable pub ◌>>=◌ : {A B : Type 0} → Attempt A → (A → Attempt B) → Attempt B
goes_on a >>= f = f a
returns r >>= f = returns r
raises >>= f = raises

-- A call that may raise.
unfoldable pub lift : {A : Type 0} → Raises A → Attempt A
lift (ok a) = goes_on a
lift raised = raises

-- `if condition: return JsonResult.fail(code, msg)`
unfoldable pub refuse_if : Bool → JsonResult → Attempt Unit
refuse_if true r = returns r
refuse_if false r = goes_on tt

-- `if x is None: return JsonResult.fail(code, msg)`
unfoldable pub or_refuse : {A : Type 0} → Option A → JsonResult → Attempt A
or_refuse none r = returns r
or_refuse (some a) r = goes_on a

-- A handler that goes on went on at every step.
pub bind_goes_on :
    {A B : Type 0} (a : Attempt A) (f : A → Attempt B) (b : B)
    → (a >>= f) ≡ goes_on b
    → (x : A) × (a ≡ goes_on x) × (f x ≡ goes_on b)
unfolding ◌>>=◌
bind_goes_on (goes_on x) f b e = (x, refl, e)
bind_goes_on (returns r) f b e = absurd (ground (arith, e))
bind_goes_on raises f b e = absurd (ground (arith, e))

pub refuse_if-passed :
    {B : Type 0} (c : Bool) (r : JsonResult) (f : Unit → Attempt B) (b : B)
    → (refuse_if c r >>= f) ≡ goes_on b
    → (c ≡ false) × (f tt ≡ goes_on b)
unfolding ◌>>=◌ refuse_if
refuse_if-passed true r f b e = absurd (ground (arith, e))
refuse_if-passed false r f b e = (refl, e)

pub or_refuse-passed :
    {A B : Type 0} (o : Option A) (r : JsonResult) (f : A → Attempt B) (b : B)
    → (or_refuse o r >>= f) ≡ goes_on b
    → (x : A) × (o ≡ some x) × (f x ≡ goes_on b)
unfolding ◌>>=◌ or_refuse
or_refuse-passed none r f b e = absurd (ground (arith, e))
or_refuse-passed (some x) r f b e = (x, refl, e)

pub lift-ok : {A : Type 0} (m : Raises A) (a : A) → lift m ≡ goes_on a → m ≡ ok a
unfolding lift
lift-ok (ok b) a e = ground (arith, e)
lift-ok raised a e = absurd (ground (arith, e))

pub goes_on_inj : {A : Type 0} (a b : A) → goes_on a ≡ goes_on b → a ≡ b
goes_on_inj a b e = ground (arith, e)
