-- ===== src/Vehicle/Heartbeat.antt =====
-- app/tcp/heartbeat_processor.py, with save_or_update_device and restart_device_wifi of
-- app/services/device_memory_table.py: what a heartbeat sets in motion, one heartbeat at a time. An
-- exception ends the background task where it stands; what was committed before stays. `send` is
-- `send_tcp_msg` and `queue` is `send_task_queen` of app/tcp/tcp_client.py; `show` is `str` of a
-- number. The copy of the frame's hex text that Redis drops after three seconds is left out.
pub mod Stored
use ygvcs_py.Prelude.{
  ℕ, Bool, true, false, not, ◌&&◌, Option, none, some, List, [], ◌∷◌, ◌++◌, String, ◌==◌, leb, ltb,
  if◌then◌else◌, Text, Bytes, codes, text_eq, length,
}
use ygvcs_py.Prelude.Raises.{Raises, ok, raised, ◌>>=◌}
use ygvcs_py.Tcp.Bytes.{print_hex_string, split_byte, int_to_hex}
use ygvcs_py.Tcp.Checked.{get_crc_to_send}
use ygvcs_py.Tcp.Constants.{code_at}
use ygvcs_py.Tcp.Futures.{JsonMsg}
use ygvcs_py.Store.Tables.{Device, Db}
use ygvcs_py.Vehicle.Memory.{MemoryTable, field, hex_or_none, parse_memory_table, heartbeat_reply}
use ygvcs_py.Vehicle.Frames.{WayPoint, join_texts, password, should_dispatch}
use ygvcs_py.Vehicle.Frames.Dispatch.{Dispatching, dispatch_task}
use ygvcs_py.Vehicle.Reports.{Reports, update_task, update_storage_state}
use ygvcs_py.Devices.{Devices, auto_register}

-- What the services share. The tables of the database are those of `dispatching`.
pub record Plant (W : Type 0) : Type 0 where
  pub tables : List (ℕ × MemoryTable)
  pub kept : List (String × Device)
  pub reports : Reports
  pub dispatching : Dispatching W

-- What a run of the background task meets: whether the answers of the vehicle to an unlocking
-- come, whether the server is ready, and the numbers drawn.
pub record Circumstances : Type 0 where
  pub unlocked : Bool
  pub ready : Bool
  pub random : ℕ
  pub random' : ℕ

abbrev pub of_db : {W : Type 0} → Plant W → Db
of_db s = s.dispatching.db

abbrev pub with_db : {W : Type 0} → Db → Plant W → Plant W
with_db db s = record s { dispatching = record (s.dispatching) { db = db } }

-- What Redis has under the key of a vehicle's table, the newest entry first.
unfoldable pub table_of : ℕ → List (ℕ × MemoryTable) → Option MemoryTable
table_of imei [] = none
table_of imei ((i, t) ∷ ts) = let rest = table_of imei ts in if i == imei then some t else rest

-- The registration where the number is not 0.
unfoldable pub register : {W : Type 0} → (ℕ → String) → ℕ → Plant W → Plant W
unfolding auto_register
register show imei s =
    if imei == 0
    then s
    else with_db (auto_register (show imei) (record { db = of_db s; kept = s.kept })).db s

-- The task's report and the storage's, in one session.
unfoldable pub report_all : {W : Type 0} → Bytes → Bool → Plant W → Plant W
unfolding update_task update_storage_state
report_all frame unlocked s =
    let r =
      update_storage_state frame
        (update_task frame unlocked (record (s.reports) { db = of_db s })) in
    record (with_db r.db s) { reports = r }

-- `print_hex_string(split_byte(frame, 12, 13)) == "00"`
abbrev pub is_heartbeat : Bytes → Bool
is_heartbeat frame = elim (hex_or_none (split_byte (some frame) 12 13)) [
  | none ↦ false
  | some t ↦ text_eq t (codes "00")
]

-- FUN_CODES[37], the restart of a vehicle's wireless connection.
unfoldable pub restart_frame : ℕ → ℕ → Raises Text
unfolding join_texts
restart_frame random imei =
    get_crc_to_send
      (join_texts (
        codes "40BF807F"
        ∷ int_to_hex random 4
        ∷ int_to_hex imei 4
        ∷ code_at 37
        ∷ codes "01"
        ∷ codes "01"
        ∷ []))
      password

module _ {W : Type 0} (send : Text → W → JsonMsg × W) where
  -- `recent` is whether the key of the last restart still stands, `threshold` the number that the
  -- key of the limit holds, where it holds one. The flag is whether the key is set anew.
  unfoldable pub restart_device_wifi : ℕ → Bool → Option ℕ → ℕ → ℕ → W → Raises Bool × W
  unfolding restart_frame
  restart_device_wifi random true threshold imei strength w = (ok false, w)
  restart_device_wifi random false none imei strength w = (ok false, w)
  restart_device_wifi random false (some limit) imei strength w =
      if ltb strength limit then (ok false, w) else elim (restart_frame random imei) [
        | raised ↦ (raised, w)
        | ok frame ↦ let (r, w') = send frame w in (ok r.status, w')
      ]

  module _ (queue : Text → W → Raises W) (to_list : String → Raises (List WayPoint))
      (show : ℕ → String) where
    unfoldable pub hand_on : Circumstances → MemoryTable → Plant W → Plant W
    unfolding should_dispatch dispatch_task
    hand_on c table s =
        if should_dispatch table
        then record s {
          dispatching =
              (dispatch_task to_list send c.ready c.random c.random' table s.dispatching).1;
        }
        else s

    abbrev pub after_reply : Circumstances → Bytes → MemoryTable → Plant W → Raises W → Plant W
    after_reply c frame table s raised = s
    after_reply c frame table s (ok w) = hand_on c table (
        report_all frame c.unlocked (
          register show table.device_imei
            (record s { dispatching = record (s.dispatching) { world = w } })))

    -- `save_or_update_device` and what follows it
    abbrev pub after_parse : Circumstances → Bytes → Plant W → Raises MemoryTable → Plant W
    after_parse c frame s raised = s
    after_parse c frame s (ok table) =
        after_reply c frame table (record s { tables = (table.device_imei, table) ∷ s.tables })
          (heartbeat_reply table.device_imei table.user_task_id (field frame 13 14 1) >>= λ f.
            queue f s.dispatching.world)

    unfoldable pub process_heartbeat : Circumstances → Bytes → Plant W → Plant W
    unfolding register report_all hand_on parse_memory_table heartbeat_reply
    process_heartbeat c frame s = after_parse c frame s (parse_memory_table frame)

    unfoldable pub message_handler : Circumstances → Bytes → Plant W → Plant W
    unfolding process_heartbeat
    message_handler c frame s =
        if leb (length frame) 12
        then s
        else if is_heartbeat frame
        then process_heartbeat c frame s
        else s
