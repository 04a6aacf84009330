-- ===== src/Tasks/Templates/Running.antt =====
-- No station belongs to two running templates as a start, or as an end.
use ygvcs_py.Prelude.{
  ℕ, ◌≡◌, ◌≢◌, refl, ◌⊎◌, inl, inr, true, false, ◌&&◌, Option, none, some, List, [], ◌∷◌, String,
  ◌==◌, arith,
}
use mathlib.Core.Path.{subst}
use ygvcs_py.Store.Query.{is_text, is_number, select_one}
use ygvcs_py.Store.Query.Sorted.{In, select-In}
use ygvcs_py.Store.Query.Rows.{In-update, select_one-In}
use ygvcs_py.Store.Tables.{TaskTempSite, TaskTemplate, Db}
use ygvcs_py.Store.Repos.{is_code, select_run_task_temp_by_site}
use ygvcs_py.Store.Repos.Joined.{map-In, join-In}
use ygvcs_py.Tasks.Reply.{JsonResult}
use ygvcs_py.Tasks.Templates.{
  TaskEditForm, of_template, site_of_template, first_conflict, sites_of, or_else, conflict,
  save_template, set_status, edit_template, edit_task_temp,
}

-- A site row of a running template.
pub record Runs (db : Db) (t : TaskTemplate) (s : TaskTempSite) : Type 0 where
  pub template : In t db.templates
  pub site : In s db.temp_sites
  pub belongs : is_number s.task_template_id t.task_template_id ≡ true
  pub running : is_text t.run_status "0" ≡ true

-- Two running templates with the same station as a start, or as an end, are one template.
pub record RunExclusive (db : Db) : Type 0 where
  pub alone :
      (type : String) (t u : TaskTemplate) (s r : TaskTempSite)
      → (type ≡ "1") ⊎ (type ≡ "2")
      → Runs db t s
      → Runs db u r
      → is_text s.site_type type ≡ true
      → is_text r.site_type type ≡ true
      → is_code r.site_code s.site_code ≡ true
      → t.task_template_id ≡ u.task_template_id

is_code-sym : (a b : Option ℕ) → is_code a b ≡ true → is_code b a ≡ true
is_code-sym none none h = refl
is_code-sym none (some n) h = absurd (ground arith)
is_code-sym (some m) none h = absurd (ground arith)
is_code-sym (some m) (some n) h = ground arith

-- A running template with a site row is found by its station, unless it is the excluded one.
found_running :
    (db : Db) (type : String) (id : ℕ) (code : Option ℕ) (u : TaskTemplate) (r : TaskTempSite)
    → Runs db u r
    → is_text r.site_type type ≡ true
    → is_code r.site_code code ≡ true
    → (id == u.task_template_id) ≡ false
    → select_run_task_temp_by_site code type (some id) db ≢ []
unfolding select_run_task_temp_by_site
found_running db type id code u r runs typed same other none_there = subst (In u) none_there (
    map-In (λ (p : TaskTemplate × TaskTempSite). p.0) _ (u, r)
      (select-In _ _ (u, r)
        (join-In (λ t s. is_number s.task_template_id t.task_template_id) db.templates db.temp_sites
          u r runs.template runs.site runs.belongs)
        (rw (same, typed, runs.running, other) refl)))

first_conflict-none :
    (id : ℕ) (type : String) (sites : List TaskTempSite) (db : Db) (s : TaskTempSite)
    → first_conflict id type sites db ≡ none
    → In s sites
    → select_run_task_temp_by_site s.site_code type (some id) db ≡ []
unfolding first_conflict
first_conflict-none id type [] db s e m = absurd m
first_conflict-none id type (x ∷ sites) db s e m =
    go (select_run_task_temp_by_site x.site_code type (some id) db) refl m
      (λ f k. first_conflict-none id type sites db s f k)
  where
    go :
        (l : List TaskTemplate)
        → select_run_task_temp_by_site x.site_code type (some id) db ≡ l
        → In s (x ∷ sites)
        → (first_conflict id type sites db ≡ none
            → In s sites
            → select_run_task_temp_by_site s.site_code type (some id) db ≡ [])
        → select_run_task_temp_by_site s.site_code type (some id) db ≡ []
    go [] f (inl same) later = rw same f
    go [] f (inr k) later = later (rw (f, first_conflict) at e) k
    go (t ∷ l) f k later = absurd (ground (arith, rw (f, first_conflict) at e))

or_else-none : (a b : Option JsonResult) → or_else a b ≡ none → (a ≡ none) × (b ≡ none)
or_else-none none b h = (refl, h)
or_else-none (some r) b h = absurd (ground arith)

-- When the check finds nothing, no other running template has a station of this one.
conflict-none :
    (form : TaskEditForm) (db : Db) (type : String) (s : TaskTempSite)
    → conflict form db ≡ none
    → is_text form.run_status "0" ≡ true
    → (type ≡ "1") ⊎ (type ≡ "2")
    → In s db.temp_sites
    → site_of_template form.task_template_id s ≡ true
    → is_text s.site_type type ≡ true
    → select_run_task_temp_by_site s.site_code type (some form.task_template_id) db ≡ []
unfolding conflict
conflict-none form db type s e runs kind m own typed = by kind
  where
    id : ℕ
    id = form.task_template_id

    checked :
        (first_conflict id "1" (sites_of id "1" db) db ≡ none)
        × (first_conflict id "2" (sites_of id "2" db) db ≡ none)
    checked = or_else-none _ _ (rw (conflict, runs) at e)

    of_sites : In s (sites_of id type db)
    of_sites =
        select-In (λ s. site_of_template id s && is_text s.site_type type) db.temp_sites s m
          (rw (own, typed) refl)

    by :
        (type ≡ "1") ⊎ (type ≡ "2")
        → select_run_task_temp_by_site s.site_code type (some id) db ≡ []
    by (inl one) =
        first_conflict-none id type (sites_of id type db) db s (rw one checked.0) of_sites
    by (inr two) =
        first_conflict-none id type (sites_of id type db) db s (rw two checked.1) of_sites

-- A site row of a running template after the write: of the written template, or as it was.
Runs-save_template :
    (db : Db) (v t : TaskTemplate) (s : TaskTempSite)
    → Runs (save_template v db) t s
    → (t ≡ v) ⊎ (Runs db t s × ((t.task_template_id == v.task_template_id) ≡ false))
unfolding save_template
Runs-save_template db v t s runs =
    elim (In-update (λ _. v) (of_template v.task_template_id) db.templates t runs.template) [
      | inl (_, _, _, e) ↦ inl e
      | inr (m, other) ↦ inr (
        record { template = m; site = runs.site; belongs = runs.belongs; running = runs.running },
        other,
      )
    ]

module _ (form : TaskEditForm) (db : Db) (v : TaskTemplate) where
  -- The written template and another one never meet: the check would have found the other.
  never_meet :
      (type : String) (u : TaskTemplate) (s r : TaskTempSite)
      → v.task_template_id ≡ form.task_template_id
      → v.run_status ≡ form.run_status
      → conflict form db ≡ none
      → (type ≡ "1") ⊎ (type ≡ "2")
      → Runs (save_template v db) v s
      → Runs db u r
      → (u.task_template_id == v.task_template_id) ≡ false
      → is_text s.site_type type ≡ true
      → is_text r.site_type type ≡ true
      → is_code r.site_code s.site_code ≡ true
      → ⊥
  unfolding save_template
  never_meet type u s r id status free kind mine theirs other typed typed' same =
      found_running db type form.task_template_id s.site_code u r theirs typed' same
        (rw (← id) (ground arith))
        (conflict-none form db type s free (rw (← status) mine.running) kind mine.site
          (rw (← id) mine.belongs) typed)

  saved-RunExclusive :
      v.task_template_id ≡ form.task_template_id
      → v.run_status ≡ form.run_status
      → conflict form db ≡ none
      → RunExclusive db
      → RunExclusive (save_template v db)
  saved-RunExclusive id status free before = record { alone = alone }
    where
      alone :
          (type : String) (t u : TaskTemplate) (s r : TaskTempSite)
          → (type ≡ "1") ⊎ (type ≡ "2")
          → Runs (save_template v db) t s
          → Runs (save_template v db) u r
          → is_text s.site_type type ≡ true
          → is_text r.site_type type ≡ true
          → is_code r.site_code s.site_code ≡ true
          → t.task_template_id ≡ u.task_template_id
      alone type t u s r kind a b typed typed' same = elim (Runs-save_template db v t s a) [
        | inl e ↦ elim (Runs-save_template db v u r b) [
          | inl f ↦ rw (e, f) refl
          | inr (old, other) ↦ absurd (
              never_meet type u s r id status free kind
                (subst (λ x. Runs (save_template v db) x s) e a) old other typed typed' same)
        ]
        | inr (old, other) ↦ elim (Runs-save_template db v u r b) [
          | inl f ↦ absurd (
              never_meet type t r s id status free kind
                (subst (λ x. Runs (save_template v db) x r) f b) old other typed' typed
                (is_code-sym r.site_code s.site_code same))
          | inr (old', _) ↦ before.alone type t u s r kind old old' typed typed' same
        ]
      ]

-- Switching a template's run status, refused or not, keeps it that no station is a start, or an
-- end, of two running templates.
pub edit_task_temp-RunExclusive :
    (form : TaskEditForm) (db : Db) → RunExclusive db → RunExclusive (edit_task_temp form db).1
unfolding edit_task_temp
edit_task_temp-RunExclusive form db before =
    go (select_one (of_template form.task_template_id) db.templates) refl
  where
    checked :
        (t : TaskTemplate) (c : Option JsonResult)
        → of_template form.task_template_id t ≡ true
        → conflict form db ≡ c
        → RunExclusive (set_status t form db c).1
    checked t (some r) own e = before
    checked t none own e =
        saved-RunExclusive form db (record t { run_status = form.run_status }) (ground arith) refl e
          before

    go :
        (o : Option TaskTemplate)
        → select_one (of_template form.task_template_id) db.templates ≡ o
        → RunExclusive (edit_template form db o).1
    go none e = before
    go (some t) e =
        checked t (conflict form db)
          (select_one-In (of_template form.task_template_id) db.templates t e).1 refl
