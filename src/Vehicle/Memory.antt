-- ===== src/Vehicle/Memory.antt =====
-- app/services/device_memory_table.py: a heartbeat frame read at its byte places.
pub mod Fields
use ygvcs_py.Prelude.{
  ℕ, ◌/◌, ◌%◌, ◌^◌, ◌++◌, Option, none, some, Text, Bytes, bit_and, codes, leb, if◌then◌else◌,
}
use ygvcs_py.Prelude.Raises.{Raises, ok, raised, ◌>>=◌}
use ygvcs_py.Tcp.Bytes.{
  hex_string_to_bytes, print_hex_string, bytes_to_int, split_byte, int_to_bytes,
}
use ygvcs_py.Tcp.Checked.{get_crc_to_send}

pub record MemoryTable : Type 0 where
  pub device_imei : ℕ
  pub user_task_id : ℕ
  pub flag : Option Text
  pub model : ℕ
  pub start_site_code : ℕ
  pub end_site_code : ℕ
  pub steps : ℕ
  pub fork_height : ℕ
  pub task_number : ℕ
  pub battery_level : ℕ
  pub fork_status : ℕ
  pub task_flag : ℕ
  pub task_source : ℕ
  pub storage_row_flag : ℕ
  pub x_position : ℕ
  pub y_position : ℕ
  pub o_position : ℕ
  pub traffic_area_id : ℕ
  pub return_line_id : ℕ
  pub lock_state : ℕ
  pub button_number : ℕ
  pub wifi_strength : ℕ
  pub floor : ℕ
  pub device_no : ℕ
  pub control_status : ℕ
  pub control_device_no : ℕ

-- `bp.bytes_to_int(bp.split_byte(reb, start, end), size)`
abbrev pub field : Bytes → ℕ → ℕ → ℕ → ℕ
field reb start end size = bytes_to_int (split_byte (some reb) start end) size

-- `print_hex_string`, which gives `None` for `None`
abbrev pub hex_or_none : Option Bytes → Option Text
hex_or_none none = none
hex_or_none (some b) = some (print_hex_string b)

-- The fields, with the flag's text and the bytes read back from it.
unfoldable pub memory_table : Bytes → Option Text → Option Bytes → MemoryTable
memory_table reb flag flag_bytes =
    let self_consistent = field reb 120 121 1 in
    record {
      device_imei = field reb 8 12 4;
      user_task_id = field reb 4 8 4;
      flag = flag;
      model = bytes_to_int flag_bytes 1 / 2 ^ 6;
      start_site_code = field reb 15 18 3;
      end_site_code = field reb 18 21 3;
      steps = field reb 21 24 3;
      fork_height = field reb 25 27 2;
      task_number = field reb 27 29 2;
      battery_level = field reb 29 30 1;
      fork_status = bit_and (field reb 30 31 1) 3;
      task_flag = bit_and (field reb 31 32 1 / 2 ^ 4) 0xff;
      task_source = field reb 137 138 1;
      storage_row_flag = bit_and (self_consistent / 2) 2;
      x_position = field reb 104 108 4;
      y_position = field reb 108 112 4;
      o_position = field reb 112 116 4;
      traffic_area_id = field reb 125 127 2;
      return_line_id = field reb 132 136 4;
      lock_state = bit_and (self_consistent / 2 ^ 3) 1;
      button_number = field reb 127 129 2;
      wifi_strength = field reb 148 149 1;
      floor = field reb 151 152 1;
      device_no = field reb 152 153 1;
      control_status = field reb 153 154 1;
      control_device_no = field reb 154 155 1;
    }

unfoldable pub parse_memory_table : Bytes → Raises MemoryTable
unfolding memory_table
parse_memory_table reb = do
  let flag = hex_or_none (split_byte (some reb) 14 15)
  flag_bytes ← hex_string_to_bytes flag
  ok (memory_table reb flag flag_bytes)

-- The frame that `send_heartbeat` sends.
unfoldable pub heartbeat_reply : ℕ → ℕ → ℕ → Raises Text
heartbeat_reply imei user_task_id length =
    get_crc_to_send
      (codes "40BF807F"
        ++ (print_hex_string (int_to_bytes user_task_id 4)
            ++ (print_hex_string (int_to_bytes imei 4)
                ++ (codes "00" ++ (if leb length 137 then codes "00" else codes "0000")))))
      (some (codes "123456789"))
