-- ===== src/Vehicle/Reports/Once.antt =====
-- A report that comes again changes no table.
use ygvcs_py.Prelude.{
  ℕ, ◌≡◌, refl, ◌∙◌, Bool, true, false, Option, none, some, String, Text, Bytes, ◌==◌,
  if◌then◌else◌, inl, inr, Bool-cases, arith, ==_refl,
}
use ygvcs_py.Prelude.Raises.{Raises, ok, raised}
use ygvcs_py.Store.Tables.{UserTask, Db}
use ygvcs_py.Vehicle.Reports.{
  TaskInfo, Reports, last_info, is_same, is_update_db, queue, reply_state, send_unlock, reserve_end,
  select_by_pk, set_send_flag, record_flag, mark_time, report, info_of, lock_state_of, update_task,
}

-- The report is the last of its vehicle.
abbrev IsKnown : TaskInfo → Reports → Type 0
IsKnown t s = is_same (last_info t.device_imei s.flag_map) t ≡ true

queue_map : (r : Raises Text) (s : Reports) → (queue r s).flag_map ≡ s.flag_map
queue_map raised s = refl
queue_map (ok t) s = refl

queue_db : (r : Raises Text) (s : Reports) → (queue r s).db ≡ s.db
queue_db raised s = refl
queue_db (ok t) s = refl

reserve_end_map : (ut : Option UserTask) (s : Reports) → (reserve_end ut s).flag_map ≡ s.flag_map
unfolding reserve_end
reserve_end_map none s = refl
reserve_end_map (some ut) s = ground arith

is_update_db-IsKnown : (t : TaskInfo) (s : Reports) → IsKnown t (is_update_db t s).1
unfolding is_update_db last_info
is_update_db-IsKnown t s = elim (Bool-cases (is_same (last_info t.device_imei s.flag_map) t)) [
  | inl h ↦ rw h h
  | inr h ↦ rw h (rw (==_refl t.device_imei) (rw (==_refl t.user_task_id) (==_refl t.task_flag)))
]

reply_state_map : (t : TaskInfo) (s : Reports) → (reply_state t s).flag_map ≡ s.flag_map
unfolding reply_state
reply_state_map t s = queue_map _ s

reply_state_db : (t : TaskInfo) (s : Reports) → (reply_state t s).db ≡ s.db
unfolding reply_state
reply_state_db t s = queue_db _ s

timed_map :
    (b : Bool) (imei : ℕ) (s : Reports) → (if b then mark_time imei s else s).flag_map ≡ s.flag_map
timed_map true imei s = refl
timed_map false imei s = refl

timed_db : (b : Bool) (imei : ℕ) (s : Reports) → (if b then mark_time imei s else s).db ≡ s.db
timed_db true imei s = refl
timed_db false imei s = refl

record_map :
    (t : TaskInfo) (flag : String) (starting : Bool) (s : Reports)
    → (record_flag t flag starting s).flag_map ≡ s.flag_map
unfolding record_flag
record_map t flag true s =
    reserve_end_map (select_by_pk t.user_task_id (set_send_flag t.user_task_id flag s.db)) _
record_map t flag false s = refl

module _ (t : TaskInfo) (flag : String) (timed starting : Bool) (s : Reports) where
  recorded_map :
      (new : Bool) (s1 : Reports)
      → (if new then record_flag t flag starting s1 else s1).flag_map ≡ s1.flag_map
  recorded_map true s1 = record_map t flag starting s1
  recorded_map false s1 = refl

  report_map : (report t flag timed starting s).flag_map ≡ (is_update_db t s).1.flag_map
  unfolding report
  report_map =
      timed_map timed t.device_imei _
      ∙ reply_state_map t _
      ∙ recorded_map (is_update_db t s).0 (is_update_db t s).1

  report-IsKnown : IsKnown t (report t flag timed starting s)
  report-IsKnown = rw report_map (is_update_db-IsKnown t s)

  report_known : IsKnown t s → (report t flag timed starting s).db ≡ s.db
  unfolding report is_update_db
  report_known h = rw h (timed_db timed t.device_imei (reply_state t s) ∙ reply_state_db t s)

is_update_db_db : (t : TaskInfo) (s : Reports) → (is_update_db t s).1.db ≡ s.db
unfolding is_update_db
is_update_db_db t s = elim (Bool-cases (is_same (last_info t.device_imei s.flag_map) t)) [
  | inl h ↦ rw h refl
  | inr h ↦ rw h refl
]

opened : (n : ℕ) → send_unlock n true ≡ true
opened n = ground arith

-- What both branches of a test keep.
record SameDb (d : Db) (s : Reports) : Type 0 where
  same : s.db ≡ d

record Known (t : TaskInfo) (s : Reports) : Type 0 where
  known : IsKnown t s

db_either :
    {d : Db} (b : Bool) {x y : Reports} → SameDb d x → SameDb d y → SameDb d (if b then x else y)
db_either true h k = h
db_either false h k = k

known_either :
    {t : TaskInfo} (b : Bool) {x y : Reports} → Known t x → Known t y → Known t (if b then x else y)
known_either true h k = h
known_either false h k = k

abbrev same_db : (d : Db) (s : Reports) → s.db ≡ d → SameDb d s
same_db d s h = record { same = h }

abbrev now_known : (t : TaskInfo) (s : Reports) → IsKnown t s → Known t s
now_known t s h = record { known = h }

update_task_known :
    (frame : Bytes) (u : Bool) (s : Reports)
    → IsKnown (info_of frame) s
    → (update_task frame u s).db ≡ s.db
unfolding update_task
update_task_known frame u s h =
    let t = info_of frame in
    let o = send_unlock (lock_state_of frame) u in
    let stay = same_db s.db s refl in
    (db_either (t.task_flag == 0) stay (
      db_either (t.task_flag == 1)
        (db_either o (same_db _ _ (report_known t "3" true true s h)) stay)
        (db_either (t.task_flag == 2) (same_db _ _ (report_known t "2" false false s h)) (
          db_either (t.task_flag == 3)
            (db_either o (same_db _ _ (report_known t "4" true false s h)) stay)
            (db_either (t.task_flag == 4)
              (db_either o (same_db _ _ (report_known t "7" true false s h)) stay)
              (same_db _ _ (is_update_db_db t s))))))).same

update_task-IsKnown :
    (frame : Bytes) (s : Reports)
    → (info_of frame).task_flag == 0 ≡ false
    → IsKnown (info_of frame) (update_task frame true s)
unfolding update_task
update_task-IsKnown frame s h =
    let t = info_of frame in
    rw (h, opened (lock_state_of frame))
      (known_either (t.task_flag == 1) (now_known t _ (report-IsKnown t "3" true true s)) (
        known_either (t.task_flag == 2) (now_known t _ (report-IsKnown t "2" false false s)) (
          known_either (t.task_flag == 3) (now_known t _ (report-IsKnown t "4" true false s)) (
            known_either (t.task_flag == 4) (now_known t _ (report-IsKnown t "7" true false s))
              (now_known t _ (is_update_db-IsKnown t s)))))).known

update_task_zero :
    (frame : Bytes) (u : Bool) (s : Reports)
    → (info_of frame).task_flag == 0 ≡ true
    → (update_task frame u s).db ≡ s.db
unfolding update_task
update_task_zero frame u s h = rw h refl

-- When a report was handled with the keyboard unlocked, the same report handled again, whether the
-- vehicle then unlocks or not, changes no table.
pub update_task_once :
    (frame : Bytes) (u : Bool) (s : Reports)
    → (update_task frame u (update_task frame true s)).db ≡ (update_task frame true s).db
update_task_once frame u s = elim (Bool-cases ((info_of frame).task_flag == 0)) [
  | inl z ↦ update_task_zero frame u (update_task frame true s) z
  | inr n ↦ update_task_known frame u (update_task frame true s) (update_task-IsKnown frame s n)
]
