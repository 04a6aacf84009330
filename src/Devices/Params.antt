-- ===== src/Devices/Params.antt =====
-- The commands of app/services/device.py to a vehicle: terminate_task, set_wifi_restart_value and
-- set_device_params. `table` is the memory table that Redis holds of the vehicle, `send` is
-- `send_tcp_msg`, and `random` draws the number of a frame. Floats are a parameter: `positive` is
-- `> 0`, `clamped` the bounds of a pallet's width, and `pack` is `struct.pack("<f", …)`, which raises
-- on a value that does not fit.
pub mod Order
use ygvcs_py.Prelude.{
  ℕ, suc, Bool, true, false, Option, none, some, List, [], ◌∷◌, Text, Bytes, codes, if◌then◌else◌,
}
use ygvcs_py.Prelude.Raises.{Raises, ok, raised}
use ygvcs_py.Tasks.Reply.{JsonResult, success, success_of, not_created, fail, notice}
use ygvcs_py.Tcp.Bytes.{int_to_hex, print_hex_string}
use ygvcs_py.Tcp.Checked.{get_crc_to_send}
use ygvcs_py.Tcp.Constants.{code_at}
use ygvcs_py.Tcp.Futures.{JsonMsg}
use ygvcs_py.Vehicle.Memory.{MemoryTable}
use ygvcs_py.Vehicle.Frames.{join_texts, password}
use ygvcs_py.Vehicle.Frames.Commands
use ygvcs_py.UserTasks.Guards.{is_flag, not_connected}

abbrev pub is_success : JsonResult → Bool
is_success (fail code n) = false
is_success success = true
is_success (success_of s) = true
is_success (not_created n) = true

abbrev pub is_connected : Option MemoryTable → Bool
is_connected none = false
is_connected (some t) = if is_flag t.flag (codes "FF" ∷ []) then false else true

-- The thresholds in Redis, the last written first.
unfoldable pub set_wifi_restart_value : ℕ → Option ℕ → List (ℕ × ℕ) → JsonResult × List (ℕ × ℕ)
set_wifi_restart_value imei none kept =
    (fail "1" (notice "device.setWifiRestartValue.wifiRestartValueNotNull"), kept)
set_wifi_restart_value imei (some value) kept = (success, (imei, value) ∷ kept)

pub record DeviceParamsSetForm (F : Type 0) : Type 0 where
  pub device_imei : ℕ
  pub pallet_width : Option F
  pub no_cargo_height : Option F
  pub lift_height : Option F
  pub have_cargo_height : Option F

module _ {W : Type 0} (send : Text → W → JsonMsg × W) where
  unfoldable pub terminate_task : ℕ → ℕ → Option MemoryTable → W → Raises JsonResult × W
  terminate_task random imei table w =
      if is_connected table
      then Commands.terminate_task send random imei w
      else (ok not_connected, w)

  abbrev pub send_built : Raises Text → W → Raises JsonResult × W
  send_built raised w = (raised, w)
  send_built (ok frame) w =
      let (r, w') = send frame w in
      if r.status
      then (ok success, w')
      else (ok (fail "1" (notice "TaskService.sendTask.TaskIsFail")), w')

  module _ {F : Type 0} (positive : F → Bool) (clamped : F → F) (pack : F → Raises Bytes) where
    abbrev pub param_frame : ℕ → ℕ → ℕ → ℕ → Raises Bytes → Raises Text
    param_frame random imei table_no index raised = raised
    param_frame random imei table_no index (ok value) =
        get_crc_to_send
          (join_texts (
            codes "40BF807F"
            ∷ int_to_hex random 4
            ∷ int_to_hex imei 4
            ∷ code_at 30
            ∷ int_to_hex 7 2
            ∷ int_to_hex table_no 1
            ∷ int_to_hex index 2
            ∷ print_hex_string value
            ∷ []))
          password

    abbrev pub send_param : ℕ → ℕ → ℕ → ℕ → F → W → Raises JsonResult × W
    send_param random imei table_no index value w =
        send_built (param_frame random imei table_no index (pack value)) w

    abbrev pub unless_failed : Raises JsonResult × W → Raises JsonResult × W → Raises JsonResult × W
    unless_failed (raised, w) rest = (raised, w)
    unless_failed (ok j, w) rest = if is_success j then rest else (ok j, w)

    -- The first value whose sending fails ends the run.
    unfoldable pub send_params :
        (ℕ → ℕ) → ℕ → ℕ → List (ℕ × ℕ × Option F) → W → Raises JsonResult × W
    send_params random imei drawn [] w = (ok success, w)
    send_params random imei drawn ((table_no, index, none) ∷ params) w =
        send_params random imei drawn params w
    send_params random imei drawn ((table_no, index, some value) ∷ params) w =
        let sent = send_param (random drawn) imei table_no index value w in
        let rest = send_params random imei (suc drawn) params sent.1 in unless_failed sent rest

    abbrev pub given_value : Option F → Option F
    given_value none = none
    given_value (some value) = if positive value then some value else none

    abbrev pub bounded : Option F → Option F
    bounded none = none
    bounded (some value) = some (clamped value)

    abbrev pub wanted : DeviceParamsSetForm F → List (ℕ × ℕ × Option F)
    wanted form =
        (12, 13, bounded (given_value form.pallet_width))
        ∷ (11, 35, given_value form.no_cargo_height)
        ∷ (11, 52, given_value form.lift_height)
        ∷ (11, 43, given_value form.have_cargo_height)
        ∷ []

    unfoldable pub set_device_params :
        (ℕ → ℕ) → Option MemoryTable → DeviceParamsSetForm F → W → Raises JsonResult × W
    unfolding send_params
    set_device_params random table form w =
        if is_connected table
        then send_params random form.device_imei 0 (wanted form) w
        else (ok not_connected, w)
