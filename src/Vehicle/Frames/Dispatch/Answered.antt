-- ===== src/Vehicle/Frames/Dispatch/Answered.antt =====
-- When a task counts as handed over, and what stays as it was.
use ygvcs_py.Prelude.{
  ℕ, ◌≡◌, ◌≢◌, ◌⊎◌, inl, inr, refl, ap, ◌∙◌, Bool, true, false, Option, none, some, List, [], ◌∷◌,
  String, Text, if◌then◌else◌, ==_refl, arith,
}
use ygvcs_py.Prelude.Raises.{Raises, ok, raised}
use ygvcs_py.Tcp.Futures.{JsonMsg}
use ygvcs_py.Store.Tables.{UserTask}
use ygvcs_py.Store.Repos.{save_task}
use ygvcs_py.Tasks.Pickup.{edit_and_get_an_task}
use ygvcs_py.Vehicle.Memory.{MemoryTable}
use ygvcs_py.Vehicle.Frames.{WayPoint}
use ygvcs_py.Vehicle.Frames.Dispatch.{
  answer_accepted, send_all_frames, Dispatching, in_busy, discard_busy, marked_sent, frames_for,
  finish, send_task, take_task, hand_over, dispatch_body, dispatch_task,
}

-- Every frame, in its turn, was answered by a response that says that it was carried out.
pub data Answered {W : Type 0} (send : Text → W → JsonMsg × W) : List Text → W → W → Type 0 where
  all_sent : {w : W} → Answered send [] w w
  one_sent :
      {f : Text} {fs : List Text} {w w' : W}
      → (send f w).0.status ≡ true
      → answer_accepted (send f w).0 ≡ ok true
      → Answered send fs (send f w).1 w'
      → Answered send (f ∷ fs) w w'

-- The loop's step on the tests alone.
abbrev after : {W : Type 0} → Bool → Raises Bool → W → Raises Bool × W → Raises Bool × W
after status answer w rest =
    if status
    then elim answer [ raised ↦ (raised, w) | ok a ↦ if a then rest else (ok false, w) ]
    else (ok false, w)

step_done :
    {W : Type 0} (status : Bool) (answer : Raises Bool) (w : W) (rest : Raises Bool × W)
    → (after status answer w rest).0 ≡ ok true
    → (status ≡ true) × (answer ≡ ok true) × (rest.0 ≡ ok true)
step_done true raised w rest h = absurd (ground (arith, h))
step_done true (ok true) w rest h = (refl, refl, h)
step_done true (ok false) w rest h = absurd (ground (arith, h))
step_done false answer w rest h = absurd (ground (arith, h))

send_all_frames-Answered :
    {W : Type 0} (send : Text → W → JsonMsg × W) (fs : List Text) (w : W)
    → (send_all_frames send fs w).0 ≡ ok true
    → Answered send fs w (send_all_frames send fs w).1
unfolding send_all_frames
send_all_frames-Answered send [] w h = all_sent
send_all_frames-Answered send (f ∷ fs) w h =
    let (s, a, r) =
      step_done (send f w).0.status (answer_accepted (send f w).0) (send f w).1
        (send_all_frames send fs (send f w).1) h in
    rw (s, a) (one_sent s a (send_all_frames-Answered send fs (send f w).1 r))

discard_absent : (n : ℕ) (ms : List ℕ) → in_busy n ms ≡ false → discard_busy n ms ≡ ms
unfolding discard_busy
discard_absent n [] h = refl
discard_absent n (m ∷ ms) h = ground (arith, discard_absent n ms)

discard_own : (n : ℕ) (ms : List ℕ) → in_busy n ms ≡ false → discard_busy n (n ∷ ms) ≡ ms
unfolding discard_busy
discard_own n ms h = rw (==_refl n) (discard_absent n ms h)

raised_ne : raised ≢ ok true
raised_ne h = ground (arith, h)

false_ne : ok false ≢ ok true
false_ne h = ground (arith, h)

module _ (to_list : String → Raises (List WayPoint)) {W : Type 0} (send : Text → W → JsonMsg × W)
    (random random' : ℕ) (table : MemoryTable) where
  -- What a dispatch from `s` to `s'` that returned true did.
  pub record HandedOver (ready : Bool) (s s' : Dispatching W) : Type 0 where
    pub was_ready : ready ≡ true
    pub task : UserTask
    pub frames : List Text
    pub task_is : (edit_and_get_an_task table.device_imei s.op_busy s.db).0 ≡ some task
    pub frames_are : frames_for to_list random random' table task ≡ ok frames
    pub answered : Answered send frames s.world s'.world
    pub saved : s'.db ≡ save_task (marked_sent task table.device_imei) s.db

  -- The frames were made and answered and the task marked, or the tables are as before.
  abbrev Handed : UserTask → Dispatching W → Raises Bool × Dispatching W → Type 0
  Handed ut s r =
      ((r.0 ≢ ok true) × (r.1.db ≡ s.db))
      ⊎ ((r.0 ≡ ok true)
          × ((frames : List Text) × (frames_for to_list random random' table ut ≡ ok frames)
              × Answered send frames s.world r.1.world
              × (r.1.db ≡ save_task (marked_sent ut table.device_imei) s.db)))

  finish_verdict :
      (ut : UserTask) (frames : List Text) (s : Dispatching W) (r : Raises Bool)
      → (send_all_frames send frames s.world).0 ≡ r
      → frames_for to_list random random' table ut ≡ ok frames
      → Handed ut s (
          finish to_list send table.device_imei ut
            (record s { world = (send_all_frames send frames s.world).1 })
            r)
  finish_verdict ut frames s raised e f = inl (raised_ne, refl)
  finish_verdict ut frames s (ok true) e f =
      inr (refl, (frames, f, send_all_frames-Answered send frames s.world e, refl))
  finish_verdict ut frames s (ok false) e f = inl (false_ne, refl)

  send_task_verdict :
      (ut : UserTask) (s : Dispatching W) (fs : Raises (List Text))
      → frames_for to_list random random' table ut ≡ fs
      → Handed ut s (send_task to_list send table.device_imei ut s fs)
  send_task_verdict ut s raised e = inl (raised_ne, refl)
  send_task_verdict ut s (ok frames) e = finish_verdict ut frames s _ refl e

  hand_over_verdict :
      (ut : UserTask) (s : Dispatching W)
      → Handed ut s (hand_over to_list send random random' table ut s)
  unfolding hand_over
  hand_over_verdict ut s = send_task_verdict ut s _ refl

  -- No part of the body touches the list of busy vehicles.
  send_task_busy :
      (ut : UserTask) (s : Dispatching W) (fs : Raises (List Text))
      → (send_task to_list send table.device_imei ut s fs).1.dispatch_busy ≡ s.dispatch_busy
  send_task_busy ut s raised = refl
  send_task_busy ut s (ok frames) = finish_busy (send_all_frames send frames s.world).0
    where
      finish_busy :
          (r : Raises Bool)
          → (finish to_list send table.device_imei ut
              (record s { world = (send_all_frames send frames s.world).1 })
              r).1.dispatch_busy
            ≡ s.dispatch_busy
      finish_busy raised = refl
      finish_busy (ok true) = refl
      finish_busy (ok false) = refl

  -- What a dispatch does to the state, by what it returned.
  abbrev pub DispatchVerdict : Bool → Dispatching W → Raises Bool × Dispatching W → Type 0
  DispatchVerdict ready s r =
      (r.1.dispatch_busy ≡ s.dispatch_busy)
      × (((r.0 ≢ ok true) × (r.1.db ≡ s.db)) ⊎ ((r.0 ≡ ok true) × HandedOver ready s r.1))

  take_task_verdict :
      (s : Dispatching W) (task : Option UserTask)
      → (edit_and_get_an_task table.device_imei s.op_busy s.db).0 ≡ task
      → DispatchVerdict true s (
          take_task to_list send random random' table task
            (record s { op_busy = (edit_and_get_an_task table.device_imei s.op_busy s.db).1 }))
  unfolding hand_over
  take_task_verdict s none e = (refl, inl (false_ne, refl))
  take_task_verdict s (some ut) e =
      let s' : Dispatching W = record s {
        op_busy = (edit_and_get_an_task table.device_imei s.op_busy s.db).1;
      } in
      (
        send_task_busy ut s' (frames_for to_list random random' table ut),
        elim (hand_over_verdict ut s') [
          | inl h ↦ inl h
          | inr h ↦ inr (
            h.0,
            record {
              was_ready = refl;
              task = ut;
              frames = h.1.0;
              task_is = e;
              frames_are = h.1.1;
              answered = h.1.2;
              saved = h.1.3;
            },
          )
        ],
      )

  dispatch_body_verdict :
      (ready : Bool) (s : Dispatching W)
      → DispatchVerdict ready s (dispatch_body to_list send ready random random' table s)
  unfolding dispatch_body
  dispatch_body_verdict false s = (refl, inl (false_ne, refl))
  dispatch_body_verdict true s = take_task_verdict s _ refl

  -- For a vehicle that no task is being sent to: after `dispatch_task` the list of busy vehicles is as
  -- before, whatever happened, an exception included. Either it did not return true, and no table
  -- changed; or it returned true, and then the server was ready, the next task of the vehicle was
  -- found, every one of its frames was answered in turn by a response of success, and in the tables
  -- that task alone was written over, with this vehicle and the send flag 2.
  pub dispatch_task_verdict :
      (ready : Bool) (s : Dispatching W)
      → in_busy table.device_imei s.dispatch_busy ≡ false
      → DispatchVerdict ready s (dispatch_task to_list send ready random random' table s)
  unfolding dispatch_task
  dispatch_task_verdict ready s free = rw free (
    busy_again,
    elim v.1 [
      | inl h ↦ inl h
      | inr h ↦ inr (
        h.0,
        record {
          was_ready = h.1.was_ready;
          task = h.1.task;
          frames = h.1.frames;
          task_is = h.1.task_is;
          frames_are = h.1.frames_are;
          answered = h.1.answered;
          saved = h.1.saved;
        },
      )
    ],
  )
    where
      marked : Dispatching W
      marked = record s { dispatch_busy = table.device_imei ∷ s.dispatch_busy }

      v :
          DispatchVerdict ready marked
            (dispatch_body to_list send ready random random' table marked)
      v = dispatch_body_verdict ready marked

      busy_again :
          discard_busy table.device_imei
            (dispatch_body to_list send ready random random' table marked).1.dispatch_busy
          ≡ s.dispatch_busy
      busy_again =
          ap (discard_busy table.device_imei) v.0
          ∙ discard_own table.device_imei s.dispatch_busy free
