-- ===== src/UserTasks/Sending.antt =====
-- app/services/user_task.py: add_task, send_points_task and send_repeat_task. A call is one
-- transaction: where it refuses or raises, the session ends without a commit and the tables keep
-- their state.
pub mod Settled
pub mod Added
pub mod Stored
use ygvcs_py.Prelude.{
  ℕ, Bool, true, false, not, ◌&&◌, ◌||◌, Option, none, some, List, [], ◌∷◌, ◌++◌, String, ◌==◌,
  if◌then◌else◌, Text, codes, text_eq, first,
}
use ygvcs_py.Prelude.Raises.{Raises, ok, raised}
use ygvcs_py.Tcp.Futures.{JsonMsg}
use ygvcs_py.Store.Query.{is_text, is_number, select, select_one}
use ygvcs_py.Store.Tables.{UserTask, SiteManage, Db}
use ygvcs_py.Store.Repos.{save_task}
use ygvcs_py.Tasks.Reply.{
  JsonResult, success, success_of, fail, notice, site_notice, text_notice, flag_notice,
}
use ygvcs_py.Tasks.Sequences.{add_and_get_user_task_id}
use ygvcs_py.Tasks.Create.{insert_task}
use ygvcs_py.Vehicle.Memory.{MemoryTable}
use ygvcs_py.Vehicle.Frames.{WayPoint, or_zero, append_task, task_lock}
use ygvcs_py.Vehicle.Frames.Dispatch.{way_points_of}
use ygvcs_py.UserTasks.Attempt.{
  Attempt, goes_on, returns, raises, ◌>>=◌, lift, refuse_if, or_refuse,
}
use ygvcs_py.UserTasks.Guards.{
  task_flags, points_flags, idle_vehicle, known_position, keyboard_locked, Failure, not_sent,
  not_done, send_frames,
}
use ygvcs_py.UserTasks.Orders.{
  WebTaskAddForm, TaskPointsForm, Order, add_order, points_order, repeat_order,
}

pub record Sender (W : Type 0) : Type 0 where
  pub db : Db
  pub world : W

module _ {W : Type 0} (send : Text → W → JsonMsg × W) where
  abbrev pub stored : Order → Sender W → Raises Db → Raises JsonResult × Sender W
  stored o s raised = (raised, s)
  stored o s (ok db) = (ok o.answer, record s { db = db })

  abbrev pub settle : Order → Sender W → Raises (Option Failure) → Raises JsonResult × Sender W
  settle o s raised = (raised, s)
  settle o s (ok (some x)) = (ok (o.on_failure x), s)
  settle o s (ok none) = stored o s o.store

  -- The end of the three operations: the loop over the frames, then the write.
  unfoldable pub carry_out : Attempt Order → Sender W → Raises JsonResult × Sender W
  unfolding send_frames
  carry_out raises s = (raised, s)
  carry_out (returns j) s = (ok j, s)
  carry_out (goes_on o) s =
      let (r, w) = send_frames send o.frames s.world in settle o (record s { world = w }) r

module _ {W : Type 0} (send : Text → W → JsonMsg × W) where
  unfoldable pub add_task :
      (List WayPoint → String)
      → ℕ
      → ℕ
      → WebTaskAddForm
      → Option MemoryTable
      → Sender W
      → Raises JsonResult × Sender W
  unfolding carry_out add_order
  add_task dump new_id random form table s =
      carry_out send (add_order dump new_id random form table s.db) s

  unfoldable pub send_points_task :
      ℕ → ℕ → ℕ → TaskPointsForm → Option MemoryTable → Sender W → Raises JsonResult × Sender W
  unfolding carry_out points_order
  send_points_task new_id random random' form table s =
      carry_out send (points_order new_id random random' form table s.db) s

  unfoldable pub send_repeat_task :
      (String → Raises (List WayPoint))
      → ℕ
      → Option String
      → (Option ℕ → Option MemoryTable)
      → Sender W
      → Raises JsonResult × Sender W
  unfolding carry_out repeat_order
  send_repeat_task to_list random message_id tables s =
      carry_out send (repeat_order to_list random message_id tables s.db) s
