-- ===== src/Vehicle/Frames/Dispatch.antt =====
-- app/services/send_task.py, dispatch_task. What the vehicle answers to a frame, and what else
-- becomes of the connections by then, is `send`, which `send_tcp_msg` of app/tcp/tcp_client.py
-- fills; `ready` is whether the key serverIsReady says "yes".
pub mod Answered
use ygvcs_py.Prelude.{
  ℕ, ◌+◌, ◌/◌, Bool, true, false, not, ◌&&◌, ◌||◌, Option, none, some, List, [], ◌∷◌, ◌++◌, String,
  Text, codes, ltb, ◌==◌, if◌then◌else◌, length, slice,
}
use ygvcs_py.Prelude.Raises.{Raises, ok, raised, ◌>>=◌}
use ygvcs_py.Tcp.Futures.{JsonMsg}
use ygvcs_py.Tcp.Responses.{Parsed, is_0xff_or_0x00}
use ygvcs_py.Store.Tables.{UserTask, Db}
use ygvcs_py.Store.Repos.{save_task}
use ygvcs_py.Tasks.Create.{Imei}
use ygvcs_py.Tasks.Pickup.{edit_and_get_an_task}
use ygvcs_py.Vehicle.Memory.{MemoryTable}
use ygvcs_py.Vehicle.Frames.{WayPoint, append_task, task_lock}

-- The text of an answer that was received, read as a response.
unfoldable pub answer_accepted : JsonMsg → Raises Bool
answer_accepted r = elim r.msg [
  | none ↦ raised
  | some t ↦ is_0xff_or_0x00 (slice t 24 26) (some t) >>= λ p. ok p.status
]

module _ {W : Type 0} (send : Text → W → JsonMsg × W) where
  -- The loop over the frames: true when every one was answered as it should be.
  unfoldable pub send_all_frames : List Text → W → Raises Bool × W
  unfolding answer_accepted
  send_all_frames [] w = (ok true, w)
  send_all_frames (f ∷ fs) w =
      let (r, w') = send f w in
      let rest = send_all_frames fs w' in
      if r.status
      then elim (answer_accepted r) [
        | raised ↦ (raised, w')
        | ok a ↦ if a then rest else (ok false, w')
      ]
      else (ok false, w')

-- What the service keeps between its calls: the vehicles that a task is being sent to, the vehicles
-- whose task is being chosen, the tables, and the connections.
pub record Dispatching (W : Type 0) : Type 0 where
  pub dispatch_busy : List ℕ
  pub op_busy : List Imei
  pub db : Db
  pub world : W

abbrev pub in_busy : ℕ → List ℕ → Bool
in_busy n [] = false
in_busy n (m ∷ ms) = m == n || in_busy n ms

unfoldable pub discard_busy : ℕ → List ℕ → List ℕ
discard_busy n [] = []
discard_busy n (m ∷ ms) = let rest = discard_busy n ms in if m == n then rest else m ∷ rest

abbrev pub marked_sent : UserTask → ℕ → UserTask
marked_sent ut imei = record ut { device_imei = some imei; send_flag = some "2" }

-- The JSON text of the way points, where it is there and not "".
abbrev pub way_points_of :
    (String → Raises (List WayPoint)) → Option String → Raises (List WayPoint)
way_points_of to_list none = ok []
way_points_of to_list (some String.[]) = ok []
way_points_of to_list (some (String.◌∷◌ c s)) = to_list (String.◌∷◌ c s)

module _ (to_list : String → Raises (List WayPoint)) where
  -- The frames of a task: the keyboard is locked first where it is not.
  unfoldable pub frames_for : ℕ → ℕ → MemoryTable → UserTask → Raises (List Text)
  frames_for random random' table ut = do
    way_points ← way_points_of to_list ut.way_points
    frames ← append_task random ut table.device_imei way_points
    (if table.lock_state == 0
        then (task_lock random' table.device_imei 1 >>= λ lock. ok (lock ∷ frames))
        else ok frames)

  module _ {W : Type 0} (send : Text → W → JsonMsg × W) where
    -- After the loop over the frames: the task is marked as sent when all were answered.
    abbrev pub finish : ℕ → UserTask → Dispatching W → Raises Bool → Raises Bool × Dispatching W
    finish imei ut s raised = (raised, s)
    finish imei ut s (ok true) = (ok true, record s { db = save_task (marked_sent ut imei) s.db })
    finish imei ut s (ok false) = (ok false, s)

    abbrev pub send_task :
        ℕ → UserTask → Dispatching W → Raises (List Text) → Raises Bool × Dispatching W
    send_task imei ut s raised = (raised, s)
    send_task imei ut s (ok frames) =
        let (r, w) = send_all_frames send frames s.world in
        finish imei ut (record s { world = w }) r

    unfoldable pub hand_over :
        ℕ → ℕ → MemoryTable → UserTask → Dispatching W → Raises Bool × Dispatching W
    unfolding frames_for
    hand_over random random' table ut s =
        send_task table.device_imei ut s (frames_for random random' table ut)

    -- `if ut is None: return False`, and else the task is handed over.
    abbrev pub take_task :
        ℕ → ℕ → MemoryTable → Option UserTask → Dispatching W → Raises Bool × Dispatching W
    take_task random random' table none s = (ok false, s)
    take_task random random' table (some ut) s = hand_over random random' table ut s

    unfoldable pub dispatch_body :
        Bool → ℕ → ℕ → MemoryTable → Dispatching W → Raises Bool × Dispatching W
    unfolding hand_over
    dispatch_body ready random random' table s =
        if ready
        then (let (task, op_busy) = edit_and_get_an_task table.device_imei s.op_busy s.db in
            take_task random random' table task (record s { op_busy = op_busy }))
        else (ok false, s)

    -- The vehicle is marked busy for the time of the body, and unmarked however it ends.
    unfoldable pub dispatch_task :
        Bool → ℕ → ℕ → MemoryTable → Dispatching W → Raises Bool × Dispatching W
    unfolding dispatch_body discard_busy
    dispatch_task ready random random' table s =
        if in_busy table.device_imei s.dispatch_busy
        then (ok false, s)
        else (let (r, s') =
              dispatch_body ready random random' table
                (record s { dispatch_busy = table.device_imei ∷ s.dispatch_busy }) in
            (r, record s' { dispatch_busy = discard_busy table.device_imei s'.dispatch_busy }))
