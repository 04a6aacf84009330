-- ===== src/Tcp/Bytes.antt =====
-- app/tcp/byte_process.py: hex texts, integers and slices of frames.
-- A `bytes` is a list of numbers below 256 and a hex text a list of code points. Integers are not
-- negative here; `& 0xFF` is `% 256`, `>> k` is `/ 2 ^ k` and `<< k` is `* 2 ^ k`.
pub mod Hex
pub mod Ints
use ygvcs_py.Prelude.{
  ℕ, zero, suc, ◌+◌, ◌-◌, ◌*◌, ◌/◌, ◌%◌, ◌^◌, Bool, true, false, not, ◌&&◌, Option, none, some,
  List, [], ◌∷◌, ◌++◌, map, ltb, leb, ◌==◌, if◌then◌else◌, bit_or, Text, Bytes, codes, text_eq,
  length, take, drop, slice, filter_by,
}
use ygvcs_py.Prelude.Raises.{Raises, ok, raised, ◌>>=◌}

-- `s.upper()`, on the ASCII letters.
abbrev upper : ℕ → ℕ
upper c = if leb b'a' c && leb c b'z' then c - 32 else c

-- `_HEX.index(c)`, which raises on a character that is no digit.
unfoldable pub hex_index : ℕ → Raises ℕ
hex_index c =
    if leb b'0' c && leb c b'9'
    then ok (c - 48)
    else if leb b'A' c && leb c b'F'
    then ok (c - 55)
    else raised

-- `s.replace(" ", "")`
unfoldable pub without_spaces : Text → Text
without_spaces [] = []
without_spaces (c ∷ s) = let rest = without_spaces s in if c == b' ' then rest else c ∷ rest

-- The loop over the pairs of digits; a last digit without a partner is not read.
unfoldable pub hex_pairs : Text → Raises Bytes
unfolding hex_index
hex_pairs [] = ok []
hex_pairs (h ∷ []) = ok []
hex_pairs (h ∷ l ∷ s) = do
  hi ← hex_index (upper h)
  lo ← hex_index (upper l)
  rest ← hex_pairs s
  ok ((bit_or (hi * 2 ^ 4) lo % 256) ∷ rest)

unfoldable pub hex_string_to_bytes : Option Text → Raises (Option Bytes)
unfolding hex_pairs without_spaces
hex_string_to_bytes none = ok none
hex_string_to_bytes (some []) = ok none
hex_string_to_bytes (some (c ∷ s)) = do out ← hex_pairs (without_spaces (c ∷ s)); ok (some out)

-- `"0123456789ABCDEF"[d]`
unfoldable pub hex_digit : ℕ → ℕ
hex_digit d = if ltb d 10 then d + 48 else d + 55

-- `f"{x & 0xFF:02X}"`
unfoldable pub print_hex_byte : ℕ → Text
unfolding hex_digit
print_hex_byte x = hex_digit (x % 256 / 16) ∷ hex_digit (x % 256 % 16) ∷ []

-- `print_hex_string` on a `bytes`.
unfoldable pub print_hex_string : Bytes → Text
unfolding print_hex_byte
print_hex_string [] = []
print_hex_string (x ∷ b) = print_hex_byte x ++ print_hex_string b

-- Any size but 1, 2 and 3 gives four bytes.
unfoldable pub int_to_bytes : ℕ → ℕ → Bytes
int_to_bytes value size =
    let v = value % 2 ^ 32 in
    if size == 1
    then (v % 256) ∷ []
    else if size == 2
    then (v / 2 ^ 8 % 256) ∷ (v % 256) ∷ []
    else if size == 3
    then (v / 2 ^ 16 % 256) ∷ (v / 2 ^ 8 % 256) ∷ (v % 256) ∷ []
    else (v / 2 ^ 24 % 256) ∷ (v / 2 ^ 16 % 256) ∷ (v / 2 ^ 8 % 256) ∷ (v % 256) ∷ []

unfoldable pub int_to_hex : ℕ → ℕ → Text
int_to_hex value size = print_hex_string (int_to_bytes value size)

-- The loop that fills `b1`: position `length - i - 1` holds `b[i]`, or 0 behind the end of `b`.
unfoldable pub reverse_padded : ℕ → Bytes → Bytes
reverse_padded zero b = []
reverse_padded (suc n) [] = reverse_padded n [] ++ 0 ∷ []
reverse_padded (suc n) (x ∷ b) = reverse_padded n b ++ x ∷ []

-- The four returns for a `bytes` of exactly the wanted length; any other length gives 0.
unfoldable pub bytes_value : Bytes → ℕ
bytes_value (b0 ∷ []) = b0 % 256
bytes_value (b0 ∷ b1 ∷ []) = bit_or (b1 % 256) (b0 % 256 * 2 ^ 8)
bytes_value (b0 ∷ b1 ∷ b2 ∷ []) = bit_or (bit_or (b2 % 256) (b1 % 256 * 2 ^ 8)) (b0 % 256 * 2 ^ 16)
bytes_value (b0 ∷ b1 ∷ b2 ∷ b3 ∷ []) =
    bit_or (bit_or (bit_or (b3 % 256) (b2 % 256 * 2 ^ 8)) (b1 % 256 * 2 ^ 16)) (b0 % 256 * 2 ^ 24)
bytes_value _ = 0

unfoldable pub bytes_to_int : Option Bytes → ℕ → ℕ
unfolding bytes_value reverse_padded
bytes_to_int none len = 0
bytes_to_int (some b) len =
    let b' = if ltb (length b) len then reverse_padded len b else b in
    if ltb 0 (length b') && length b' == len then bytes_value b' else 0

unfoldable pub split_byte : Option Bytes → ℕ → ℕ → Option Bytes
unfolding int_to_bytes
split_byte none start end = none
split_byte (some reqb) start end =
    if leb 8 (length reqb)
    then (if ltb (length reqb) end then some (int_to_bytes 0 4) else some (slice reqb start end))
    else none
