-- ===== src/Ids.antt =====
-- app/utils/id_utils.py: the snowflake ids. The clock is the environment: `now` is what
-- `_time_gen` returns first, and `later` what `_til_next_millis` returns where it is called. The
-- last timestamp is `none` before the first id, for the -1 of the code. Clock values before
-- TWEPOCH, for which the shifted difference would be negative, are left out.
pub mod Order
use ygvcs_py.Prelude.{
  ℕ, ◌+◌, ◌-◌, ◌*◌, ◌^◌, ◌%◌, Bool, true, false, Option, none, some, ◌==◌, if◌then◌else◌, bit_and,
  bit_or, ltb,
}
use ygvcs_py.Prelude.Raises.{Raises, ok, raised}

abbrev pub twepoch : ℕ
twepoch = 1633881600000

abbrev pub sequence_mask : ℕ
sequence_mask = 0xfff

pub record SnowFlakeIds : Type 0 where
  pub worker_id : ℕ
  pub datacenter_id : ℕ
  pub sequence : ℕ
  pub last_timestamp : Option ℕ

-- `__init__`, which refuses ids beyond five bits
unfoldable pub init : ℕ → ℕ → Raises SnowFlakeIds
init worker datacenter =
    if ltb 31 worker
    then raised
    else if ltb 31 datacenter
    then raised
    else ok (record {
      worker_id = worker;
      datacenter_id = datacenter;
      sequence = 0;
      last_timestamp = none;
    })

abbrev pub is_last : Option ℕ → ℕ → Bool
is_last none now = false
is_last (some t) now = t == now

unfoldable pub assemble : ℕ → ℕ → ℕ → ℕ → ℕ
assemble timestamp datacenter worker sequence =
    bit_or
      (bit_or (bit_or ((timestamp - twepoch) * 2 ^ 22) (datacenter * 2 ^ 17)) (worker * 2 ^ 12))
      sequence

unfoldable pub next_id : ℕ → ℕ → SnowFlakeIds → ℕ × SnowFlakeIds
unfolding assemble
next_id now later s =
    let same = is_last s.last_timestamp now in
    let sequence = if same then bit_and (s.sequence + 1) sequence_mask else 0 in
    let timestamp = if same then (if sequence == 0 then later else now) else now in
    (
      assemble timestamp s.datacenter_id s.worker_id sequence,
      record s { sequence = sequence; last_timestamp = some timestamp },
    )
