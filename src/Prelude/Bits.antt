-- ===== src/Prelude/Bits.antt =====
-- `|`, `&` and `^` at variables: the digit recursion that the native operations stand for.
use Prim.Native.Nat.{min, max, digits, bitwise, bit_and-bitwise, bit_or-bitwise}
use Prim.Native.Nat.{ℕ, zero, suc, ◌+◌, ◌*◌, ◌/◌, ◌%◌, ◌^◌, ◌≤◌, ◌<◌, bit_and, bit_or}
use native.Mathlib.Nat.{le_refl, pow-suc}
use mathlib.Core.Path.{◌≡◌, refl, sym, ap, ◌∙◌}
use mathlib.Core.Bool.{Bool, true, ◌&&◌}
use native.Mathlib.Omega.{arith}

-- More fuel than the number needs changes nothing, so the lowest digits can be split off.
module _ (base : ℕ → ℕ) (digit : ℕ → ℕ → ℕ) where
  digits-zero : (fuel y : ℕ) → digits base digit fuel 0 y ≡ base y
  digits-zero zero y = refl
  digits-zero (suc fuel) y = refl

  enough_fuel : (y x k m : ℕ) → x ≤ m → x ≤ k → digits base digit k x y ≡ digits base digit m x y
  enough_fuel y zero k m small fits = digits-zero k y ∙ sym (digits-zero m y)
  enough_fuel y (suc x) (suc k) (suc m) small fits =
      let half = enough_fuel (y / 2) (suc x / 2) k m (omega arith) (omega arith) in rw half
  enough_fuel y (suc x) zero m small fits = absurd (omega arith)
  enough_fuel y (suc x) k zero small fits = absurd (omega arith)

  split_digit :
      (y x : ℕ)
      → digit (suc x % 2) (y % 2) + 2 * bitwise base digit (suc x / 2) (y / 2)
        ≡ bitwise base digit (suc x) y
  split_digit y x =
      let half = enough_fuel (y / 2) (suc x / 2) x (suc x / 2) (omega arith) (omega arith) in
      omega (arith, half)

bit_or_step : (x y : ℕ) → 2 * bit_or (x / 2) (y / 2) + max (x % 2) (y % 2) ≡ bit_or x y
bit_or_step (suc x) y = simp bit_or-bitwise (omega (arith, split_digit (λ r. r) max y x))
bit_or_step zero y = simp bit_or-bitwise (omega arith)

bit_and_step : (x y : ℕ) → 2 * bit_and (x / 2) (y / 2) + min (x % 2) (y % 2) ≡ bit_and x y
bit_and_step (suc x) y = simp bit_and-bitwise (omega (arith, split_digit (λ _. 0) min y x))
bit_and_step zero y = simp bit_and-bitwise (omega arith)

-- Half of a positive number is smaller: the induction below counts down a bound on it.
or_zero_under : (bound x : ℕ) → x ≤ bound → bit_or x 0 ≡ x
or_zero_under bound zero below = refl
or_zero_under (suc bound) (suc x) below =
    let half = or_zero_under bound (suc x / 2) (omega arith) in
    omega (arith, half, bit_or_step (suc x) 0)
or_zero_under zero (suc x) below = absurd (omega arith)

and_zero_under : (bound x : ℕ) → x ≤ bound → bit_and x 0 ≡ 0
and_zero_under bound zero below = refl
and_zero_under (suc bound) (suc x) below =
    let half = and_zero_under bound (suc x / 2) (omega arith) in
    omega (arith, half, bit_and_step (suc x) 0)
and_zero_under zero (suc x) below = absurd (omega arith)

pub bit_and-zero : (x : ℕ) → bit_and x 0 ≡ 0
bit_and-zero x = and_zero_under x x (le_refl x)

-- `(q << k) | r` is a sum when `r` fits `k` bits.
pub bit_or-shift : (k q r : ℕ) → r < 2 ^ k → bit_or (q * 2 ^ k) r ≡ q * 2 ^ k + r
bit_or-shift zero q r h = ground (arith, or_zero_under (q * 1) (q * 1) (le_refl _))
bit_or-shift (suc k) q r h = ground (
  arith,
  bit_or_step (q * 2 ^ suc k) r,
  ap (λ (t : ℕ). q * t) (pow-suc 2 k),
  bit_or-shift k q (r / 2) (omega (arith, pow-suc 2 k)),
)

-- The same with the fields the other way round.
pub bit_or-shift_right : (k q r : ℕ) → r < 2 ^ k → bit_or r (q * 2 ^ k) ≡ q * 2 ^ k + r
bit_or-shift_right zero q r h = ground (arith, bit_or-bitwise r (q * 1))
bit_or-shift_right (suc k) q r h = ground (
  arith,
  bit_or_step r (q * 2 ^ suc k),
  ap (λ (t : ℕ). q * t) (pow-suc 2 k),
  bit_or-shift_right k q (r / 2) (omega (arith, pow-suc 2 k)),
)

-- A mask of low bits is a remainder.
pub bit_and-one : (a : ℕ) → bit_and a 1 ≡ a % 2
bit_and-one a = omega (arith, bit_and_step a 1, bit_and-zero (a / 2))

pub bit_and-three : (a : ℕ) → bit_and a 3 ≡ a % 4
bit_and-three a = omega (arith, bit_and_step a 3, bit_and-one (a / 2))

bit_and-15 : (a : ℕ) → bit_and a 15 ≡ a % 16
bit_and-15 a = omega (arith, bit_and_step a 15, bit_and_step (a / 2) 7, bit_and-three (a / 2 / 2))

pub bit_and-255 : (a : ℕ) → bit_and a 255 ≡ a % 256
bit_and-255 a = omega (
  arith,
  bit_and_step a 255,
  bit_and_step (a / 2) 127,
  bit_and_step (a / 2 / 2) 63,
  bit_and_step (a / 2 / 2 / 2) 31,
  bit_and-15 (a / 2 / 2 / 2 / 2),
)

pub bit_and-4095 : (a : ℕ) → bit_and a 4095 ≡ a % 4096
bit_and-4095 a = omega (
  arith,
  bit_and_step a 4095,
  bit_and_step (a / 2) 2047,
  bit_and_step (a / 2 / 2) 1023,
  bit_and_step (a / 2 / 2 / 2) 511,
  bit_and-255 (a / 2 / 2 / 2 / 2),
)

pub bit_and-two : (a : ℕ) → bit_and a 2 ≡ a / 2 % 2 * 2
bit_and-two a = omega (arith, bit_and_step a 2, bit_and-one (a / 2))

-- A test that holds of every number under a bound, checked by evaluation.
unfoldable pub holds_under : (ℕ → Bool) → ℕ → Bool
holds_under test zero = true
holds_under test (suc bound) = let rest = holds_under test bound in test bound && rest

pub holds_under-at :
    (test : ℕ → Bool) (bound x : ℕ) → x < bound → holds_under test bound ≡ true → test x ≡ true
unfolding holds_under
holds_under-at test (suc bound) x below check = ground (arith, holds_under-at test bound x)
holds_under-at test zero x below check = absurd (omega arith)
