-- ===== src/Tcp/Bytes/Ints.antt =====
-- Big-endian integers in frames.
use ygvcs_py.Prelude.{
  ℕ, zero, suc, ◌+◌, ◌*◌, ◌%◌, ◌^◌, ◌<◌, ◌≤◌, ◌≡◌, refl, Option, none, some, [], ◌∷◌, Bytes, IsByte,
  All, length, arith,
}
use ygvcs_py.Prelude.Bits.{bit_or-shift_right}
use native.Mathlib.Nat.{one-le-pow}
use ygvcs_py.Tcp.Bytes.{reverse_padded, int_to_bytes, bytes_value, bytes_to_int}

pub length-int_to_bytes : (v n : ℕ) → 0 < n → n ≤ 4 → length (int_to_bytes v n) ≡ n
unfolding int_to_bytes
length-int_to_bytes v n p q = ground arith

pub int_to_bytes-IsByte : (v n : ℕ) → All IsByte (int_to_bytes v n)
unfolding int_to_bytes
int_to_bytes-IsByte v n = ground arith

two : (a b : ℕ) → bytes_value (a ∷ b ∷ []) ≡ a % 256 * 256 + b % 256
unfolding bytes_value
two a b = omega (arith, bit_or-shift_right 8 (a % 256) (b % 256) (omega arith))

three : (a b c : ℕ) → bytes_value (a ∷ b ∷ c ∷ []) ≡ a % 256 * 65536 + b % 256 * 256 + c % 256
unfolding bytes_value
three a b c =
    rw (bit_or-shift_right 8 (b % 256) (c % 256) (omega arith))
      (omega (arith, bit_or-shift_right 16 (a % 256) (b % 256 * 256 + c % 256) (omega arith)))

four :
    (a b c d : ℕ)
    → bytes_value (a ∷ b ∷ c ∷ d ∷ [])
      ≡ a % 256 * 16777216 + b % 256 * 65536 + c % 256 * 256 + d % 256
unfolding bytes_value
four a b c d = rw (bit_or-shift_right 8 (c % 256) (d % 256) (omega arith)) (
    rw (bit_or-shift_right 16 (b % 256) (c % 256 * 256 + d % 256) (omega arith)) (
      omega (
        arith,
        bit_or-shift_right 24 (a % 256) (b % 256 * 65536 + (c % 256 * 256 + d % 256)) (omega arith),
      )))

one : (a : ℕ) → bytes_value (a ∷ []) ≡ a % 256
unfolding bytes_value
one a = refl

-- What `bytes_to_int` returns on each length of its input, as a sum.
pub bytes_to_int_one : (a : ℕ) → bytes_to_int (some (a ∷ [])) 1 ≡ a % 256
unfolding bytes_to_int
bytes_to_int_one a = one a

pub bytes_to_int_two : (a b : ℕ) → bytes_to_int (some (a ∷ b ∷ [])) 2 ≡ a % 256 * 256 + b % 256
unfolding bytes_to_int
bytes_to_int_two a b = two a b

pub bytes_to_int_three :
    (a b c : ℕ) → bytes_to_int (some (a ∷ b ∷ c ∷ [])) 3 ≡ a % 256 * 65536 + b % 256 * 256 + c % 256
unfolding bytes_to_int
bytes_to_int_three a b c = three a b c

pub bytes_to_int_four :
    (a b c d : ℕ)
    → bytes_to_int (some (a ∷ b ∷ c ∷ d ∷ [])) 4
      ≡ a % 256 * 16777216 + b % 256 * 65536 + c % 256 * 256 + d % 256
unfolding bytes_to_int
bytes_to_int_four a b c d = four a b c d

-- An integer that fits its field is read back from the field.
pub bytes_to_int-int_to_bytes :
    (v n : ℕ) → 0 < n → n ≤ 4 → v < 256 ^ n → bytes_to_int (some (int_to_bytes v n)) n ≡ v
unfolding int_to_bytes
bytes_to_int-int_to_bytes v zero p q h = absurd (omega arith)
bytes_to_int-int_to_bytes v (suc zero) p q h = rw bytes_to_int_one (omega arith)
bytes_to_int-int_to_bytes v (suc (suc zero)) p q h = rw bytes_to_int_two (omega arith)
bytes_to_int-int_to_bytes v (suc (suc (suc zero))) p q h = rw bytes_to_int_three (omega arith)
bytes_to_int-int_to_bytes v (suc (suc (suc (suc zero)))) p q h = rw bytes_to_int_four (omega arith)
bytes_to_int-int_to_bytes v (suc (suc (suc (suc (suc n))))) p q h = absurd (omega arith)

bytes_value-lt : (b : Bytes) → bytes_value b < 256 ^ length b
bytes_value-lt [] = unfold bytes_value in omega arith
bytes_value-lt (a ∷ []) = rw one (omega arith)
bytes_value-lt (a ∷ b ∷ []) = rw two (omega arith)
bytes_value-lt (a ∷ b ∷ c ∷ []) = rw three (omega arith)
bytes_value-lt (a ∷ b ∷ c ∷ d ∷ []) = rw four (omega arith)
bytes_value-lt (a ∷ b ∷ c ∷ d ∷ e ∷ r) =
    unfold bytes_value in one-le-pow (suc (suc (suc (suc (suc (length r)))))) 256 (omega arith)

-- Whatever bytes it is handed, however many, the value fits the field that is asked for.
pub bytes_to_int-lt : (b : Option Bytes) (n : ℕ) → bytes_to_int b n < 256 ^ n
unfolding bytes_to_int
bytes_to_int-lt none n = one-le-pow n 256 (omega arith)
bytes_to_int-lt (some b) n =
    ground
      (arith, bytes_value-lt b, bytes_value-lt (reverse_padded n b), one-le-pow n 256 (omega arith))
