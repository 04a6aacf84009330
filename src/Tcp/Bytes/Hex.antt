-- ===== src/Tcp/Bytes/Hex.antt =====
-- Hex texts of byte strings, and back.
use ygvcs_py.Prelude.{
  ℕ, ◌*◌, ◌/◌, ◌%◌, ◌^◌, bit_or, ◌<◌, ◌≡◌, refl, some, [], ◌∷◌, ◌++◌, ◌==◌, Text, Bytes, IsByte,
  All, length, arith, false,
}
use ygvcs_py.Prelude.Bits.{bit_or-shift}
use ygvcs_py.Prelude.Raises.{ok}
use ygvcs_py.Tcp.Bytes.{
  hex_index, without_spaces, hex_pairs, hex_string_to_bytes, hex_digit, print_hex_byte,
  print_hex_string, upper,
}

pub hex_index-hex_digit : (d : ℕ) → d < 16 → hex_index (upper (hex_digit d)) ≡ ok d
unfolding hex_index hex_digit
hex_index-hex_digit d h = ground arith

pub hex_digit_not_space : (d : ℕ) → (hex_digit d == b' ') ≡ false
unfolding hex_digit
hex_digit_not_space d = ground arith

pub length-print_hex_string : (b : Bytes) → length (print_hex_string b) ≡ 2 * length b
unfolding print_hex_string
length-print_hex_string [] = refl
length-print_hex_string (x ∷ b) = omega (arith, length-print_hex_string b)

pub without_spaces-print : (b : Bytes) → without_spaces (print_hex_string b) ≡ print_hex_string b
unfolding without_spaces print_hex_string print_hex_byte
without_spaces-print [] = refl
without_spaces-print (x ∷ b) = simp (hex_digit_not_space, without_spaces-print b)

pub without_spaces-append :
    (s t : Text) → without_spaces (s ++ t) ≡ without_spaces s ++ without_spaces t
unfolding without_spaces
without_spaces-append [] t = refl
without_spaces-append (c ∷ s) t = ground (arith, without_spaces-append s t)

pub print-append :
    (b c : Bytes) → print_hex_string (b ++ c) ≡ print_hex_string b ++ print_hex_string c
unfolding print_hex_string print_hex_byte
print-append [] c = refl
print-append (x ∷ b) c = simp (print-append b c)

byte_of_digits : (x : ℕ) → x < 256 → bit_or (x % 256 / 16 * 2 ^ 4) (x % 256 % 16) % 256 ≡ x
byte_of_digits x h = omega (arith, bit_or-shift 4 (x % 256 / 16) (x % 256 % 16) (omega arith))

pub hex_pairs-print : (b : Bytes) → All IsByte b → hex_pairs (print_hex_string b) ≡ ok b
unfolding hex_pairs print_hex_string print_hex_byte
hex_pairs-print [] h = refl
hex_pairs-print (x ∷ b) h = simp (
  hex_index-hex_digit (x % 256 / 16) (omega arith),
  hex_index-hex_digit (x % 256 % 16) (omega arith),
  hex_pairs-print b h.1,
  byte_of_digits x h.0,
)

-- The bytes come back from the hex text of a byte string that is not empty.
pub hex_string_to_bytes-print_hex_string :
    (x : ℕ) (b : Bytes)
    → All IsByte (x ∷ b)
    → hex_string_to_bytes (some (print_hex_string (x ∷ b))) ≡ ok (some (x ∷ b))
unfolding hex_string_to_bytes print_hex_string print_hex_byte
hex_string_to_bytes-print_hex_string x b h = simp (spaces, hex_pairs-print (x ∷ b) h)
  where
    spaces : without_spaces (print_hex_string (x ∷ b)) ≡ print_hex_string (x ∷ b)
    spaces = without_spaces-print (x ∷ b)
