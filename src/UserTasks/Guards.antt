-- ===== src/UserTasks/Guards.antt =====
-- app/services/user_task.py: what a vehicle's table in Redis must say before it is sent anything,
-- and the loop that sends frames and reads their answers. The table is `none` where Redis has no
-- dictionary under the vehicle's key.
use ygvcs_py.Prelude.{
  Bool, false, not, ◌||◌, Option, none, some, List, [], ◌∷◌, ◌==◌, if◌then◌else◌, Text, codes,
  slice,
}
use ygvcs_py.Prelude.Raises.{Raises, ok, raised}
use ygvcs_py.Tcp.Futures.{JsonMsg}
use ygvcs_py.Tcp.Responses.{Parsed, is_one_of, is_0xff_or_0x00}
use ygvcs_py.Tasks.Reply.{JsonResult, fail, notice, site_notice, text_notice}
use ygvcs_py.Vehicle.Memory.{MemoryTable}
use ygvcs_py.UserTasks.Attempt.{Attempt, goes_on, returns, ◌>>=◌, refuse_if}

-- `flag in flags`, where the flag may be missing
abbrev pub is_flag : Option Text → List Text → Bool
is_flag none flags = false
is_flag (some f) flags = is_one_of f flags

abbrev pub lost_flags : List Text
lost_flags = codes "77" ∷ codes "78" ∷ codes "79" ∷ []

abbrev pub task_flags : List Text
task_flags =
    codes "77"
    ∷ codes "78"
    ∷ codes "79"
    ∷ codes "82"
    ∷ codes "83"
    ∷ codes "8E"
    ∷ codes "8F"
    ∷ codes "95"
    ∷ codes "96"
    ∷ codes "E5"
    ∷ []

abbrev pub points_flags : List Text
points_flags = codes "10" ∷ task_flags

abbrev pub lock_flags : List Text
lock_flags = codes "10" ∷ codes "82" ∷ codes "83" ∷ codes "8E" ∷ codes "95" ∷ []

abbrev pub not_connected : JsonResult
not_connected = fail "1" (notice "device.notConnected")

abbrev pub unknown_position : JsonResult
unknown_position = fail "1" (notice "TaskService.addTask.unknownPosition")

-- `not isinstance(exit_mem, dict) or exit_mem.get("flag") == "FF"`
abbrev pub connected : Option MemoryTable → Attempt MemoryTable
connected none = returns not_connected
connected (some t) = if is_flag t.flag (codes "FF" ∷ []) then returns not_connected else goes_on t

-- The checks of the vehicle's state that the operations have in common.
unfoldable pub idle_vehicle : List Text → Option MemoryTable → Attempt MemoryTable
unfolding ◌>>=◌ refuse_if
idle_vehicle flags table = do
  t ← connected table
  _ ← refuse_if (is_flag t.flag lost_flags) unknown_position
  _ ← refuse_if (not (t.task_flag == 0)) (fail "1" (site_notice t.task_flag "device.taskNotMark"))
  _ ←
      refuse_if (not (is_flag t.flag flags))
        (fail "1" (text_notice "device.notSendTaskState" t.flag))
  goes_on t

unfoldable pub known_position : MemoryTable → Attempt Unit
unfolding refuse_if
known_position t = refuse_if (t.start_site_code == 0 || t.end_site_code == 0) unknown_position

unfoldable pub keyboard_locked : MemoryTable → Attempt Unit
unfolding refuse_if
keyboard_locked t =
    refuse_if (t.lock_state == 0) (fail "4" (notice "TaskService.sendTask.ButtonNotLock"))

-- Why a frame was not carried out: it was not sent, or its response says no.
pub data Failure : Type 0 where
  not_sent : Option Text → Failure
  not_done : Text → Option Text → Failure

-- `parsed.status`, and else the failure
abbrev pub reading : Text → Raises Parsed → Raises (Option Failure)
reading fun_code raised = raised
reading fun_code (ok p) = if p.status then ok none else ok (some (not_done fun_code p.msg))

unfoldable pub answer_of : JsonMsg → Raises (Option Failure)
answer_of r =
    if r.status
    then elim r.msg [
      | none ↦ raised
      | some t ↦ reading (slice t 24 26) (is_0xff_or_0x00 (slice t 24 26) (some t))
    ]
    else ok (some (not_sent r.msg))

module _ {W : Type 0} (send : Text → W → JsonMsg × W) where
  -- After a frame: the next ones, when it was carried out.
  abbrev pub next_frames :
      Raises (Option Failure) → W → Raises (Option Failure) × W → Raises (Option Failure) × W
  next_frames raised w rest = (raised, w)
  next_frames (ok (some x)) w rest = (ok (some x), w)
  next_frames (ok none) w rest = rest

  -- The frames go out one after the other until one fails.
  unfoldable pub send_frames : List Text → W → Raises (Option Failure) × W
  unfolding answer_of
  send_frames [] w = (ok none, w)
  send_frames (f ∷ fs) w =
      let (r, w') = send f w in let rest = send_frames fs w' in next_frames (answer_of r) w' rest
