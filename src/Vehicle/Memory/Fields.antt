-- ===== src/Vehicle/Memory/Fields.antt =====
-- Every heartbeat is read, and what its fields can be.
use ygvcs_py.Prelude.{
  ℕ, ◌-◌, drop, ◌/◌, ◌^◌, ◌<◌, ◌≡◌, ◌⊎◌, inl, inr, refl, Option, none, some, [], ◌∷◌, Bytes, arith,
  All, IsByte, All-take, All-drop, leb, ltb, length, Bool-cases,
}
use ygvcs_py.Prelude.Bits.{bit_and-one, bit_and-two, bit_and-three, bit_and-255}
use ygvcs_py.Prelude.Raises.{ok}
use ygvcs_py.Tcp.Bytes.{hex_string_to_bytes, print_hex_string, split_byte}
use ygvcs_py.Tcp.Bytes.Hex.{hex_string_to_bytes-print_hex_string}
use ygvcs_py.Tcp.Bytes.Ints.{bytes_to_int-lt, int_to_bytes-IsByte}
use ygvcs_py.Vehicle.Memory.{MemoryTable, field, hex_or_none, memory_table, parse_memory_table}

abbrev AreBytes : Option Bytes → Type 0
AreBytes none = Unit
AreBytes (some c) = All IsByte c

-- What a slice of a frame is made of.
split_byte-IsByte :
    (b : Bytes) (start end : ℕ) → All IsByte b → AreBytes (split_byte (some b) start end)
unfolding split_byte
split_byte-IsByte b start end h = elim (Bool-cases (leb 8 (length b))) [
  | inr short ↦ rw short tt
  | inl long ↦ elim (Bool-cases (ltb (length b) end)) [
    | inl over ↦ rw (long, over) (int_to_bytes-IsByte 0 4)
    | inr inside ↦
        rw (long, inside) (All-take IsByte (drop start b) (end - start) (All-drop IsByte b start h))
  ]
]

-- Reading back the flag's hex text.
hex_read :
    (o : Option Bytes)
    → AreBytes o
    → (r : Option Bytes) × (hex_string_to_bytes (hex_or_none o) ≡ ok r)
unfolding hex_string_to_bytes
hex_read none h = (none, refl)
hex_read (some []) h = (none, unfold print_hex_string in refl)
hex_read (some (x ∷ b)) h = (_, hex_string_to_bytes-print_hex_string x b h)

-- The ranges of the fields that are cut out of one byte.
pub record InRange (t : MemoryTable) : Type 0 where
  pub model_fits : t.model < 4
  pub fork_status_fits : t.fork_status < 4
  pub task_flag_fits : t.task_flag < 16
  pub lock_state_fits : t.lock_state < 2
  pub row_flag_values : (t.storage_row_flag ≡ 0) ⊎ (t.storage_row_flag ≡ 2)
  pub imei_fits : t.device_imei < 2 ^ 32
  pub start_site_fits : t.start_site_code < 2 ^ 24
  pub end_site_fits : t.end_site_code < 2 ^ 24

-- A heartbeat of bytes, however short, is read without an exception, and the fields that are cut
-- out of a byte are in their ranges: the model and the fork status below 4, the task flag below 16,
-- the lock state below 2, and the flag of the storage row 0 or 2, never 1.
pub parse_memory_table-InRange :
    (reb : Bytes) → All IsByte reb → (t : MemoryTable) × (parse_memory_table reb ≡ ok t) × InRange t
unfolding parse_memory_table memory_table
parse_memory_table-InRange reb h =
    let (r, e) = hex_read (split_byte (some reb) 14 15) (split_byte-IsByte reb 14 15 h) in
    (
      memory_table reb (hex_or_none (split_byte (some reb) 14 15)) r,
      rw e refl,
      record {
        model_fits = omega (arith, bytes_to_int-lt r 1);
        fork_status_fits = omega (arith, bit_and-three (field reb 30 31 1));
        task_flag_fits = omega (
          arith,
          bit_and-255 (field reb 31 32 1 / 16),
          bytes_to_int-lt (split_byte (some reb) 31 32) 1,
        );
        lock_state_fits = omega (arith, bit_and-one (field reb 120 121 1 / 8));
        row_flag_values = ground (arith, bit_and-two (field reb 120 121 1 / 2));
        imei_fits = bytes_to_int-lt (split_byte (some reb) 8 12) 4;
        start_site_fits = bytes_to_int-lt (split_byte (some reb) 15 18) 3;
        end_site_fits = bytes_to_int-lt (split_byte (some reb) 18 21) 3;
      },
    )
