-- ===== src/Tasks/Pickup/Priority.antt =====
-- The order in which a vehicle is given the waiting tasks.
use ygvcs_py.Prelude.{
  ℕ, ◌≤◌, ◌≡◌, refl, Bool, true, false, ◌&&◌, Option, none, some, List, String, arith, first, leb,
  leb→le, map, ==→eq, ap,
}
use mathlib.Core.Path.{subst}
use ygvcs_py.Store.Query.{is_text, is_number, select}
use ygvcs_py.Store.Query.Sorted.{
  In, In-select, select-In, IsFirst, first-order_asc, first-order_desc,
}
use ygvcs_py.Store.Tables.{UserTask, TaskTempDevice, Db}
use ygvcs_py.Store.Repos.{
  join, same_number, select_by_device_flag, select_run_task_by_type, select_by_flag_type,
}
use ygvcs_py.Store.Repos.Joined.{In-map, In-join}
use ygvcs_py.Tasks.Pickup.{or_else, next_task}

abbrev pub Waits : UserTask → Type 0
Waits t = is_text t.send_flag "1" ≡ true

abbrev pub IsAssigned : ℕ → UserTask → Type 0
IsAssigned imei t = (is_number t.device_imei imei && is_text t.send_flag "1") ≡ true

abbrev assigned_rows : ℕ → Db → List UserTask
assigned_rows imei db =
    select (λ t. is_number t.device_imei imei && is_text t.send_flag "1") db.user_tasks

abbrev typed_rows : String → Db → List UserTask
typed_rows type db = select (λ u. is_text u.send_flag "1" && is_text u.task_type type) db.user_tasks

assigned_first :
    (imei : ℕ) (db : Db)
    → IsFirst
        (λ x y. leb x.user_task_id y.user_task_id)
        (first (select_by_device_flag imei "1" db))
        (assigned_rows imei db)
unfolding select_by_device_flag
assigned_first imei db =
    first-order_asc {A = UserTask} (λ t. t.user_task_id) (assigned_rows imei db)

-- While a task waits that is assigned to the vehicle, the vehicle gets such a task, the one with
-- the smallest number, whatever other tasks wait.
pub next_task-IsAssigned :
    (imei : ℕ) (db : Db) (u : UserTask)
    → In u db.user_tasks
    → IsAssigned imei u
    → (t : UserTask) × (next_task imei db ≡ some t)
      × In t db.user_tasks
      × IsAssigned imei t
      × (t.user_task_id ≤ u.user_task_id)
unfolding next_task
next_task-IsAssigned imei db u m a =
    go (first (select_by_device_flag imei "1" db)) refl (assigned_first imei db)
  where
    mine : UserTask → Bool
    mine t = is_number t.device_imei imei && is_text t.send_flag "1"

    go :
        (o : Option UserTask)
        → first (select_by_device_flag imei "1" db) ≡ o
        → IsFirst (λ x y. leb x.user_task_id y.user_task_id) o (assigned_rows imei db)
        → (t : UserTask) × (next_task imei db ≡ some t)
          × In t db.user_tasks
          × IsAssigned imei t
          × (t.user_task_id ≤ u.user_task_id)
    go none e h = absurd (subst (In u) h (select-In _ db.user_tasks u m a))
    go (some t) e h =
        let (there, holds) = In-select _ db.user_tasks t h.0 in
        (
          t,
          rw (e, next_task) refl,
          there,
          holds,
          leb→le t.user_task_id u.user_task_id (h.1 u (select-In _ db.user_tasks u m a)),
        )

-- Why a task may be given to the vehicle: it is assigned to it, it is a task for several vehicles
-- and this one is registered in the task's own template, it calls for any vehicle, or it is for any vehicle.
pub data Eligible (imei : ℕ) (db : Db) (t : UserTask) : Type 0 where
  assigned : is_number t.device_imei imei ≡ true → Eligible imei db t
  one_of_several :
      (d : TaskTempDevice)
      → In d db.temp_devices
      → is_number d.device_imei imei ≡ true
      → (n : ℕ) × (d.task_template_id ≡ some n) × (t.task_template_id ≡ some n)
      → is_text t.task_type "3" ≡ true
      → Eligible imei db t
  calls : is_text t.task_type "4" ≡ true → Eligible imei db t
  unassigned : is_text t.task_type "2" ≡ true → Eligible imei db t

abbrev Given : ℕ → Db → Option UserTask → Type 0
Given imei db none = Unit
Given imei db (some t) = In t db.user_tasks × Waits t × Eligible imei db t

Given-assigned : (imei : ℕ) (db : Db) → Given imei db (first (select_by_device_flag imei "1" db))
Given-assigned imei db = go (first (select_by_device_flag imei "1" db)) (assigned_first imei db)
  where
    go :
        (o : Option UserTask)
        → IsFirst (λ x y. leb x.user_task_id y.user_task_id) o (assigned_rows imei db)
        → Given imei db o
    go none h = tt
    go (some t) h =
        let (there, holds) = In-select _ db.user_tasks t h.0 in
        (there, ground arith, assigned (ground arith))

flag_type-Given :
    (imei : ℕ) (db : Db) (type : String) (t : UserTask)
    → ((u : UserTask) → is_text u.task_type type ≡ true → Eligible imei db u)
    → In t (typed_rows type db)
    → Given imei db (some t)
flag_type-Given imei db type t why m =
    let (there, holds) = In-select _ db.user_tasks t m in
    (there, ground arith, why t (ground arith))

Given-calls : (imei : ℕ) (db : Db) → Given imei db (first (select_by_flag_type "1" "4" true db))
unfolding select_by_flag_type
Given-calls imei db =
    go (first (select_by_flag_type "1" "4" true db))
      (first-order_desc {A = UserTask} (λ t. t.user_task_id) (typed_rows "4" db))
  where
    go :
        (o : Option UserTask)
        → IsFirst (λ x y. leb y.user_task_id x.user_task_id) o (typed_rows "4" db)
        → Given imei db o
    go none h = tt
    go (some t) h = flag_type-Given imei db "4" t (λ u. calls) h.0

Given-unassigned :
    (imei : ℕ) (db : Db) → Given imei db (first (select_by_flag_type "1" "2" false db))
unfolding select_by_flag_type
Given-unassigned imei db =
    go (first (select_by_flag_type "1" "2" false db))
      (first-order_asc {A = UserTask} (λ t. t.user_task_id) (typed_rows "2" db))
  where
    go :
        (o : Option UserTask)
        → IsFirst (λ x y. leb x.user_task_id y.user_task_id) o (typed_rows "2" db)
        → Given imei db o
    go none h = tt
    go (some t) h = flag_type-Given imei db "2" t (λ u. unassigned) h.0

abbrev registered_rows : ℕ → Db → List (UserTask × TaskTempDevice)
registered_rows imei db =
    select
      (λ (p : UserTask × TaskTempDevice).
        is_number p.1.device_imei imei && is_text p.0.send_flag "1" && is_text p.0.task_type "3")
      (join (λ t d. same_number d.task_template_id t.task_template_id) db.user_tasks
        db.temp_devices)

same_number-some : (a b : Option ℕ) → same_number a b ≡ true → (n : ℕ) × (a ≡ some n) × (b ≡ some n)
same_number-some none b h = absurd (ground arith)
same_number-some (some m) none h = absurd (ground arith)
same_number-some (some m) (some k) h = (m, refl, ap some (==→eq k m h))

Given-several :
    (imei : ℕ) (db : Db) → Given imei db (first (select_run_task_by_type imei "1" "3" db))
unfolding select_run_task_by_type
Given-several imei db = go (first (select_run_task_by_type imei "1" "3" db)) (
    first-order_asc {A = UserTask} (λ t. t.user_task_id)
      (map (λ (p : UserTask × TaskTempDevice). p.0) (registered_rows imei db)))
  where
    go :
        (o : Option UserTask)
        → IsFirst
            (λ x y. leb x.user_task_id y.user_task_id)
            o
            (map (λ (p : UserTask × TaskTempDevice). p.0) (registered_rows imei db))
        → Given imei db o
    go none h = tt
    go (some t) h =
        let ((u, d), chosen, e) =
          In-map (λ (p : UserTask × TaskTempDevice). p.0) (registered_rows imei db) t h.0 in
        let (joined, holds) = In-select _ (join _ db.user_tasks db.temp_devices) (u, d) chosen in
        let (in_tasks, in_devices, joined_on) =
          In-join _ db.user_tasks db.temp_devices (u, d) joined in
        rw e (
          in_tasks,
          ground arith,
          one_of_several d in_devices (ground arith)
              (same_number-some d.task_template_id u.task_template_id joined_on) (ground arith),
        )

Given-or_else :
    (imei : ℕ) (db : Db) (a b : Option UserTask)
    → Given imei db a
    → Given imei db b
    → Given imei db (or_else a b)
Given-or_else imei db none b h k = k
Given-or_else imei db (some t) b h k = h

-- A task that a vehicle is given is in the table and waits, and it is assigned to the vehicle, is for
-- several vehicles with this one registered in the task's template, calls for any vehicle, or is for
-- any vehicle.
pub next_task-Eligible :
    (imei : ℕ) (db : Db) (t : UserTask)
    → next_task imei db ≡ some t
    → In t db.user_tasks × Waits t × Eligible imei db t
unfolding next_task
next_task-Eligible imei db t e = subst (Given imei db) e (
    Given-or_else imei db _ _ (Given-assigned imei db) (
      Given-or_else imei db _ _ (Given-several imei db)
        (Given-or_else imei db _ _ (Given-calls imei db) (Given-unassigned imei db))))
