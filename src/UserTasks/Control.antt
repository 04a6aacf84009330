-- ===== src/UserTasks/Control.antt =====
-- app/services/user_task.py: set_keyboard_lock, set_task and cancel_call_device_task, which command
-- a vehicle or take a task back. `tables` is what Redis has under the key of a task's vehicle.
pub mod Ended
pub mod Taken
use ygvcs_py.Prelude.{
  ℕ, Bool, true, false, not, ◌&&◌, ◌||◌, Option, none, some, List, [], ◌∷◌, String, ◌==◌,
  if◌then◌else◌, Text, codes, str_eq, first,
}
use ygvcs_py.Prelude.Raises.{Raises, ok, raised}
use ygvcs_py.Tcp.Futures.{JsonMsg}
use ygvcs_py.Store.Query.{is_text, select}
use ygvcs_py.Store.Tables.{UserTask, Db}
use ygvcs_py.Store.Repos.{save_task}
use ygvcs_py.Tasks.Reply.{JsonResult, success, fail, notice}
use ygvcs_py.Vehicle.Memory.{MemoryTable}
use ygvcs_py.Vehicle.Frames.{task_lock}
use ygvcs_py.Vehicle.Frames.Commands.{start_or_pause_task, terminate_task}
use ygvcs_py.UserTasks.Attempt.{Attempt, goes_on, returns, raises}
use ygvcs_py.UserTasks.Guards.{is_flag, lock_flags, idle_vehicle}
use ygvcs_py.UserTasks.Orders.{has_message, no_user_task}
use ygvcs_py.UserTasks.Sending.{Sender}
use ygvcs_py.UserTasks.Queue.{cancelled, open_calls}

-- `mem.get("userTaskId") == t.user_task_id`, with what holds where there is no table
abbrev pub does_task : Option MemoryTable → UserTask → Bool
does_task none t = false
does_task (some m) t = m.user_task_id == t.user_task_id

-- `mem is not None and mem.get("model") in (2, 3)`
abbrev pub in_task_mode : Option MemoryTable → Bool
in_task_mode none = false
in_task_mode (some m) = m.model == 2 || m.model == 3

-- `t.device_imei` of a condition: there, and not 0
abbrev pub has_vehicle : Option ℕ → Bool
has_vehicle none = false
has_vehicle (some n) = not (n == 0)

-- Under way, by what the vehicle says itself.
abbrev pub is_driving : UserTask → Option MemoryTable → Bool
is_driving t none = false
is_driving t (some m) =
    is_text t.send_flag "2"
    && has_vehicle t.device_imei
    && is_flag m.flag (codes "85" ∷ [])
    && m.user_task_id == t.user_task_id

abbrev pub device_busy : JsonResult
device_busy = fail "1" (notice "TaskService.sendTask.DeviceIsBusy")

module _ {W : Type 0} (send : Text → W → JsonMsg × W) where
  abbrev pub send_lock : Raises Text → Sender W → Raises JsonResult × Sender W
  send_lock raised s = (raised, s)
  send_lock (ok frame) s =
      let (r, w) = send frame s.world in
      if r.status
      then (ok success, record s { world = w })
      else (ok (fail "1" (notice "TaskService.sendTask.TaskIsFail")), record s { world = w })

  abbrev pub lock_vehicle :
      ℕ → ℕ → ℕ → Attempt MemoryTable → Sender W → Raises JsonResult × Sender W
  lock_vehicle random imei state raises s = (raised, s)
  lock_vehicle random imei state (returns j) s = (ok j, s)
  lock_vehicle random imei state (goes_on t) s = send_lock (task_lock random imei state) s

  unfoldable pub set_keyboard_lock :
      ℕ → ℕ → ℕ → Option MemoryTable → Sender W → Raises JsonResult × Sender W
  unfolding idle_vehicle
  set_keyboard_lock random imei state table s =
      lock_vehicle random imei state (idle_vehicle lock_flags table) s

  -- A command to the task's vehicle, whose number a frame needs.
  abbrev pub command :
      (ℕ → W → Raises JsonResult × W) → Option ℕ → Sender W → Raises JsonResult × Sender W
  command act none s = (raised, s)
  command act (some imei) s = let (r, w) = act imei s.world in (r, record s { world = w })

  abbrev pub take_back : UserTask → Sender W → Raises JsonResult × Sender W
  take_back t s = (ok success, record s { db = save_task (cancelled t) s.db })

  -- The part of `set_task` that asks for a vehicle in a task mode.
  unfoldable pub set_vehicle :
      ℕ → Option String → UserTask → Option MemoryTable → Sender W → Raises JsonResult × Sender W
  unfolding start_or_pause_task terminate_task
  set_vehicle random state t mem s =
      if not (in_task_mode mem)
      then (ok device_busy, s)
      else if is_text state "3"
      then command (terminate_task send random) t.device_imei s
      else if is_text state "1" && does_task mem t
      then command (λ imei. start_or_pause_task send random imei "1") t.device_imei s
      else if is_text state "2" && does_task mem t
      then command (λ imei. start_or_pause_task send random imei "2") t.device_imei s
      else (ok success, s)

  unfoldable pub set_found :
      ℕ → Option String → UserTask → Option MemoryTable → Sender W → Raises JsonResult × Sender W
  unfolding set_vehicle
  set_found random state t mem s =
      if is_text state "3" && not (does_task mem t)
      then take_back t s
      else set_vehicle random state t mem s

  abbrev pub set_first :
      ℕ
      → Option String
      → Option UserTask
      → (Option ℕ → Option MemoryTable)
      → Sender W
      → Raises JsonResult × Sender W
  set_first random state none tables s = (ok no_user_task, s)
  set_first random state (some t) tables s = set_found random state t (tables t.device_imei) s

  unfoldable pub set_task :
      ℕ
      → Option String
      → Option String
      → (Option ℕ → Option MemoryTable)
      → Sender W
      → Raises JsonResult × Sender W
  unfolding set_found
  set_task random message_id state tables s =
      set_first random state (first (select (has_message message_id) s.db.user_tasks)) tables s

  unfoldable pub cancel_found :
      ℕ → UserTask → Option MemoryTable → Sender W → Raises JsonResult × Sender W
  unfolding terminate_task
  cancel_found random t mem s =
      if is_driving t mem
      then command (terminate_task send random) t.device_imei s
      else if is_text t.send_flag "3"
      then (ok (fail "1" (notice "TaskService.cancelCallDeviceTask.callTaskNotCancel2")), s)
      else take_back t s

  abbrev pub cancel_first :
      ℕ → List UserTask → (Option ℕ → Option MemoryTable) → Sender W → Raises JsonResult × Sender W
  cancel_first random [] tables s = (ok success, s)
  cancel_first random (t ∷ ts) tables s = cancel_found random t (tables t.device_imei) s

  unfoldable pub cancel_call_device_task :
      ℕ → (Option ℕ → Option MemoryTable) → Sender W → Raises JsonResult × Sender W
  unfolding cancel_found
  cancel_call_device_task random tables s = cancel_first random (open_calls s.db) tables s
