-- ===== src/Tcp/Crc.antt =====
-- app/tcp/crc.py: the bitwise CRC-16 loop, twice, and the check of a frame's last two bytes.
pub mod Detect
pub mod Check
use ygvcs_py.Prelude.{
  ℕ, zero, suc, ◌+◌, ◌-◌, ◌*◌, ◌/◌, ◌%◌, ◌^◌, Bool, ◌&&◌, xor, none, some, [], ◌∷◌, ◌==◌,
  if◌then◌else◌, bit_xor, Bytes, length, drop, get_elem?, false,
}
use ygvcs_py.Prelude.Raises.{Raises, ok, raised, ◌>>=◌}

abbrev pub polynomial : ℕ
polynomial = 0x1021

abbrev pub initial : ℕ
initial = 0xffff

-- One round of the inner loop: `crc` is shifted left within 16 bits and the polynomial is added
-- when the bit that falls out differs from the message bit.
unfoldable pub crc_step : ℕ → Bool → ℕ
crc_step crc bit =
    let c15 = crc / 2 ^ 15 % 2 == 1 in
    let shifted = crc * 2 % 2 ^ 16 in if xor c15 bit then bit_xor shifted polynomial else shifted

-- `((b >> k) & 1) == 1`
abbrev pub bit_at : ℕ → ℕ → Bool
bit_at b k = b / 2 ^ k % 2 == 1

-- The rounds with `7 - i` equal to `n - 1` down to 0.
unfoldable pub crc_rounds : ℕ → ℕ → ℕ → ℕ
unfolding crc_step
crc_rounds zero b crc = crc
crc_rounds (suc n) b crc = crc_rounds n b (crc_step crc (bit_at b n))

-- `for b in data`
unfoldable pub crc_from : ℕ → Bytes → ℕ
unfolding crc_rounds
crc_from crc [] = crc
crc_from crc (b ∷ bs) = crc_from (crc_rounds 8 b crc) bs

unfoldable pub crc_16_ccitt_false : Bytes → ℕ
unfolding crc_from
crc_16_ccitt_false bs = crc_from initial bs % 2 ^ 16

-- `for index in range(offset, offset + crc_len)`: `buf[index]` raises behind the end.
unfoldable pub calc_crc_loop : ℕ → Bytes → ℕ → ℕ → Raises ℕ
unfolding crc_rounds
calc_crc_loop zero buf index crc = ok crc
calc_crc_loop (suc n) buf index crc = elim (get_elem? buf index) [
  | none ↦ raised
  | some b ↦ calc_crc_loop n buf (index + 1) (crc_rounds 8 b crc)
]

unfoldable pub calc_crc : Bytes → ℕ → ℕ → Raises ℕ
unfolding calc_crc_loop
calc_crc buf offset crc_len = do crc ← calc_crc_loop crc_len buf offset initial; ok (crc % 2 ^ 16)

-- `expect[0] == actual[0] and expect[1] == actual[1]`: an index behind the end raises, and the
-- second one is not reached after a difference.
unfoldable pub same_crc_bytes : ℕ → Bytes → Raises Bool
same_crc_bytes calc [] = raised
same_crc_bytes calc (a ∷ []) = if calc / 2 ^ 8 % 256 == a then raised else ok false
same_crc_bytes calc (a ∷ b ∷ _) = ok ((calc / 2 ^ 8 % 256 == a) && (calc % 256 == b))

-- `actual = src[-2:]`. A count of rounds below zero is no round.
unfoldable pub is_pass_crc : Bytes → ℕ → Raises Bool
unfolding calc_crc same_crc_bytes
is_pass_crc src len = do
  calc ← calc_crc src 0 (length src - len)
  same_crc_bytes calc (drop (length src - 2) src)
