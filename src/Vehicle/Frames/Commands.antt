-- ===== src/Vehicle/Frames/Commands.antt =====
-- app/services/send_task.py: start_or_pause_task and terminate_task, the commands for a running
-- task. `send` is `send_tcp_msg`.
use ygvcs_py.Prelude.{ℕ, String, Text, if◌then◌else◌, str_eq}
use ygvcs_py.Prelude.Raises.{Raises, ok, raised}
use ygvcs_py.Tcp.Futures.{JsonMsg}
use ygvcs_py.Tasks.Reply.{JsonResult, success, fail, notice}
use ygvcs_py.Vehicle.Frames.{start_or_pause_frame, terminate_frame}

module _ {W : Type 0} (send : Text → W → JsonMsg × W) where
  abbrev pub send_start : Raises Text → W → Raises JsonResult × W
  send_start raised w = (raised, w)
  send_start (ok frame) w =
      let (r, w') = send frame w in
      if r.status
      then (ok success, w')
      else (ok (fail "1" (notice "TaskService.sendTask.TaskIsFail")), w')

  unfoldable pub start_or_pause_task : ℕ → ℕ → String → W → Raises JsonResult × W
  start_or_pause_task random device_imei start w =
      send_start (start_or_pause_frame random device_imei (str_eq start "1")) w

  -- The result of the send is an object in every case, so the answer is a success.
  abbrev pub send_end : Raises Text → W → Raises JsonResult × W
  send_end raised w = (raised, w)
  send_end (ok frame) w = (ok success, (send frame w).1)

  unfoldable pub terminate_task : ℕ → ℕ → W → Raises JsonResult × W
  terminate_task random device_imei w = send_end (terminate_frame random device_imei) w
