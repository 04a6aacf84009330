-- ===== src/UserTasks/States.antt =====
-- app/services/user_task.py: get_task_info and the two questions that read it. The cache in Redis
-- is a list of entries; an entry that ran out is no longer in the list that the caller gives.
use ygvcs_py.Prelude.{
  ◌≡◌, refl, arith, Option, none, some, List, [], ◌∷◌, String, if◌then◌else◌, str_eq,
}
use text.Mathlib.TextPositions.{eq_refl}
use ygvcs_py.Store.Query.{is_text, select_one}
use ygvcs_py.Store.Tables.{UserTask, Db}
use ygvcs_py.Tasks.Reply.{JsonResult, fail, notice}
use ygvcs_py.UserTasks.Orders.{no_user_task}

abbrev pub Cache : Type 0
Cache = List (String × UserTask)

unfoldable pub cached : String → Cache → Option UserTask
cached key [] = none
cached key ((k, t) ∷ cache) = let rest = cached key cache in if str_eq k key then some t else rest

-- The row found is kept for the next question; a task that is not there is not.
abbrev pub kept_for : String → Option UserTask → Cache → Option UserTask × Cache
kept_for message_id none cache = (none, cache)
kept_for message_id (some t) cache = (some t, (message_id, t) ∷ cache)

abbrev pub look_up : String → Option UserTask → Cache → Db → Option UserTask × Cache
look_up message_id (some t) cache db = (some t, cache)
look_up message_id none cache db =
    kept_for message_id (select_one (λ t. is_text t.message_id message_id) db.user_tasks) cache

unfoldable pub get_task_info : String → Cache → Db → Option UserTask × Cache
unfolding cached
get_task_info message_id cache db = look_up message_id (cached message_id cache) cache db

-- What a question is answered: a refusal, or the column.
pub data Reading : Type 0 where
  refuses : JsonResult → Reading
  reads : Option String → Reading

abbrev pub column : (UserTask → Option String) → Option UserTask → Reading
column field none = refuses no_user_task
column field (some t) = reads (field t)

abbrev pub no_message_id : JsonResult
no_message_id = fail "1" (notice "TaskService.sendTask.MessageIdNotNull")

abbrev pub ask : (UserTask → Option String) → Option String → Cache → Db → Reading × Cache
ask field none cache db = (refuses no_message_id, cache)
ask field (some String.[]) cache db = (refuses no_message_id, cache)
ask field (some (String.◌∷◌ c s)) cache db =
    let (task, cache') = get_task_info (String.◌∷◌ c s) cache db in (column field task, cache')

unfoldable pub get_task_result : Option String → Cache → Db → Reading × Cache
get_task_result = ask (λ t. t.send_flag)

unfoldable pub get_pick_place_state : Option String → Cache → Db → Reading × Cache
get_pick_place_state = ask (λ t. t.pick_place_state)

-- While an entry stands, the same question is answered from it, whatever became of the table.
pub get_task_info_again :
    (message_id : String) (cache : Cache) (db db' : Db) (t : UserTask)
    → (get_task_info message_id cache db).0 ≡ some t
    → (get_task_info message_id (get_task_info message_id cache db).1 db').0 ≡ some t
unfolding get_task_info cached
get_task_info_again message_id cache db db' t e =
    go (cached message_id cache) (select_one (λ r. is_text r.message_id message_id) db.user_tasks)
      refl refl
  where
    go :
        (hit found : Option UserTask)
        → cached message_id cache ≡ hit
        → select_one (λ r. is_text r.message_id message_id) db.user_tasks ≡ found
        → (get_task_info message_id (get_task_info message_id cache db).1 db').0 ≡ some t
    go (some u) found h f = rw (h, cached, h) (rw (get_task_info, h) at e)
    go none none h f = absurd (ground (arith, rw (get_task_info, h, f) at e))
    go none (some u) h f = rw (h, f, eq_refl message_id) (rw (get_task_info, h, f) at e)
