-- ===== src/Vehicle/Frames.antt =====
-- app/services/send_task.py: the frames that command a vehicle, and handing it the next task.
-- A number drawn by `random.randint` is an argument, as are the values of the JSON list of way
-- points, which the library parses.
pub mod Content
pub mod Dispatch
pub mod Commands
use ygvcs_py.Prelude.{
  ℕ, ◌+◌, ◌/◌, Bool, true, false, not, ◌&&◌, ◌||◌, Option, none, some, List, [], ◌∷◌, ◌++◌, String,
  Text, codes, ltb, ◌==◌, if◌then◌else◌, length,
}
use ygvcs_py.Prelude.Raises.{Raises, ok, raised, ◌>>=◌}
use ygvcs_py.Tcp.Bytes.{print_hex_string, int_to_bytes, int_to_hex, without_spaces}
use ygvcs_py.Tcp.Checked.{get_crc_to_send}
use ygvcs_py.Tcp.Constants.{code_at, length_at}
use ygvcs_py.Tcp.Responses.{is_one_of}
use ygvcs_py.Store.Tables.{UserTask}
use ygvcs_py.Vehicle.Memory.{MemoryTable}

-- `"".join(parts)`
unfoldable pub join_texts : List Text → Text
join_texts [] = []
join_texts (p ∷ ps) = p ++ join_texts ps

abbrev pub password : Option Text
password = some (codes "123456789")

-- A way point, its missing parts as `none`.
pub record WayPoint : Type 0 where
  pub site_code : Option ℕ
  pub site_handel : Option Text
  pub storage_height : Option ℕ

-- `x or 0`
abbrev pub or_zero : Option ℕ → ℕ
or_zero none = 0
or_zero (some n) = n

unfoldable pub append_way_points_task_msg : List WayPoint → Raises Text
append_way_points_task_msg [] = ok []
append_way_points_task_msg (wp ∷ wps) = do
  site ← elim wp.site_code [ none ↦ raised | some c ↦ ok c ]
  rest ← append_way_points_task_msg wps
  ok (
      int_to_hex site 4
      ++ (codes "0" ++ (elim wp.site_handel [ none ↦ codes "0" | some h ↦ h ]))
      ++ int_to_hex (or_zero wp.storage_height) 2
      ++ rest)

-- `str(handel)`
abbrev pub str_of : Option String → Text
str_of none = codes "None"
str_of (some s) = codes s

-- `str(handel) if handel else "0"`
abbrev pub str_or_zero : Option String → Text
str_or_zero none = codes "0"
str_or_zero (some String.[]) = codes "0"
str_or_zero (some (String.◌∷◌ c s)) = codes (String.◌∷◌ c s)

abbrev pub int_of : Option ℕ → Raises ℕ
int_of none = raised
int_of (some n) = ok n

-- B2, the task frame
unfoldable pub append_task_msg : UserTask → ℕ → List WayPoint → Raises Text
unfolding append_way_points_task_msg join_texts
append_task_msg ut device_imei way_points = do
  way ← append_way_points_task_msg way_points
  let way_len = length (without_spaces way) / 2
  start ← int_of ut.start_site_code
  get_crc_to_send
      (join_texts (
        codes "40BF807F"
        ∷ int_to_hex ut.user_task_id 4
        ∷ int_to_hex device_imei 4
        ∷ code_at 93
        ∷ int_to_hex (14 + way_len) 2
        ∷ int_to_hex start 4
        ∷ (codes "0" ++ str_of ut.start_handel)
        ∷ int_to_hex (or_zero ut.start_storage_height) 2
        ∷ int_to_hex (or_zero ut.end_site_code) 4
        ∷ (codes "0" ++ str_or_zero ut.end_handel)
        ∷ int_to_hex (or_zero ut.end_storage_height) 2
        ∷ way
        ∷ []))
      password

unfoldable pub start_task_cmd : ℕ → ℕ → Text → Raises Text
unfolding join_texts
start_task_cmd random device_imei state =
    get_crc_to_send
      (join_texts (
        codes "40BF807F"
        ∷ int_to_hex random 4
        ∷ int_to_hex device_imei 4
        ∷ code_at 7
        ∷ int_to_hex 1 1
        ∷ state
        ∷ []))
      password

unfoldable pub task_lock : ℕ → ℕ → ℕ → Raises Text
unfolding join_texts
task_lock random device_imei state =
    get_crc_to_send
      (join_texts (
        codes "40BF807F"
        ∷ int_to_hex random 4
        ∷ int_to_hex device_imei 4
        ∷ code_at 94
        ∷ int_to_hex 1 2
        ∷ int_to_hex state 1
        ∷ []))
      password

unfoldable pub append_task : ℕ → UserTask → ℕ → List WayPoint → Raises (List Text)
unfolding append_task_msg start_task_cmd
append_task random ut device_imei way_points = do
  frame ← append_task_msg ut device_imei way_points
  start ← start_task_cmd random device_imei (codes "FF")
  ok (frame ∷ start ∷ [])

-- The frames of `start_or_pause_task` and `terminate_task`.
unfoldable pub start_or_pause_frame : ℕ → ℕ → Bool → Raises Text
unfolding join_texts
start_or_pause_frame random device_imei start =
    get_crc_to_send
      (join_texts (
        codes "40BF807F"
        ∷ int_to_hex random 4
        ∷ int_to_hex device_imei 4
        ∷ code_at 7
        ∷ length_at 7
        ∷ (if start then codes "00" else codes "FF")
        ∷ []))
      password

unfoldable pub terminate_frame : ℕ → ℕ → Raises Text
unfolding join_texts
terminate_frame random device_imei =
    get_crc_to_send
      (join_texts (
        codes "40BF807F"
        ∷ int_to_hex random 4
        ∷ int_to_hex device_imei 4
        ∷ code_at 16
        ∷ length_at 16
        ∷ codes "FFFFFFFF"
        ∷ []))
      password

abbrev pub idle_flags : List Text
idle_flags =
    codes "10" ∷ codes "82" ∷ codes "83" ∷ codes "8E" ∷ codes "8F" ∷ codes "95" ∷ codes "E5" ∷ []

unfoldable pub should_dispatch : MemoryTable → Bool
should_dispatch t =
    t.task_flag == 0
    && t.fork_status == 0
    && elim t.flag [ none ↦ false | some f ↦ is_one_of f idle_flags ]
    && not (t.start_site_code == 0)
