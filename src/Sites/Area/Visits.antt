-- ===== src/Sites/Area/Visits.antt =====
-- What filling or emptying an area does, place by place.
use ygvcs_py.Prelude.{
  ℕ, suc, ◌≡◌, refl, ◌⊎◌, inl, inr, not, ◌||◌, true, false, none, some, List, [], ◌∷◌, String,
  Bool-cases, Option-cases, Bool, arith,
}
use ygvcs_py.Prelude.Raises.{Raises, ok, raised}
use ygvcs_py.Store.Query.{is_text}
use ygvcs_py.Store.Tables.{Storage, Db}
use ygvcs_py.Tasks.Reply.{Outcome, JsonResult, success}
use ygvcs_py.Tasks.Create.{Imei, Created, create_task}
use ygvcs_py.Tasks.Create.Effects.{Verdict}
use ygvcs_py.Tasks.Create.Exclusion.{create_task-Verdict}
use ygvcs_py.Sites.{SiteRun, get_storage_by_code}
use ygvcs_py.Sites.Area.{is_open, open_place, fill_form, filled, fill_place, fill_sites}

-- The place of a station is there, in use, and no task is at it.
abbrev pub IsOpen : ℕ → Db → Type 0
IsOpen code db =
    (r : Storage) × (get_storage_by_code code db ≡ some r)
    × (is_text r.is_enable "1" ≡ false)
    × (is_text r.site_status "2" ≡ false)
    × (is_text r.site_status "3" ≡ false)

abbrev pub IsShut : ℕ → Db → Type 0
IsShut code db =
    (get_storage_by_code code db ≡ none)
    ⊎ ((r : Storage) × (get_storage_by_code code db ≡ some r)
        × ((is_text r.is_enable "1" ≡ true)
            ⊎ (is_text r.site_status "2" ≡ true)
            ⊎ (is_text r.site_status "3" ≡ true)))

why_shut : (a b c : Bool) → not (a || b || c) ≡ false → (a ≡ true) ⊎ (b ≡ true) ⊎ (c ≡ true)
why_shut true b c h = inl refl
why_shut false true c h = inr (inl refl)
why_shut false false true h = inr (inr refl)
why_shut false false false h = absurd (ground arith)

open_place-cases :
    (code : ℕ) (db : Db)
    → ((open_place code db ≡ true) × IsOpen code db)
      ⊎ ((open_place code db ≡ false) × IsShut code db)
unfolding open_place
open_place-cases code db = elim (Option-cases (get_storage_by_code code db)) [
  | inl e ↦ inr (rw (e, open_place) refl, inl e)
  | inr (r, e) ↦ elim (Bool-cases (is_open r)) [
    | inl t ↦
        inl (rw (e, open_place) t, (r, e, ground (arith, t), ground (arith, t), ground (arith, t)))
    | inr f ↦ inr (
      rw (e, open_place) f,
      inr (
        r,
        e,
        why_shut (is_text r.is_enable "1") (is_text r.site_status "2") (is_text r.site_status "3")
            f,
      ),
    )
  ]
]

-- The places in order: one is passed over, or create_task is run there, which refuses and changes
-- nothing or adds a task, or raises, and then the run ends and what was done before it stays.
pub data Filled (show : ℕ → String) (act : String)
    : List ℕ → Db → Raises JsonResult → Db → Type 0 where
  finished : {db : Db} → Filled show act [] db (ok success) db
  passed :
      {code : ℕ} {codes : List ℕ} {r : Raises JsonResult} {db db' : Db}
      → IsShut code db
      → Filled show act codes db r db'
      → Filled show act (code ∷ codes) db r db'
  tried :
      {code : ℕ} {codes : List ℕ} {r : Raises JsonResult} {db db'' : Db} (new_id auto : ℕ)
      (busy : List Imei) (o : Outcome) (db' : Db)
      → IsOpen code db
      → (create_task show new_id auto (fill_form act code) busy db).result ≡ ok (o, db')
      → Verdict (fill_form act code) db o db'
      → Filled show act codes db' r db''
      → Filled show act (code ∷ codes) db r db''
  stopped :
      {code : ℕ} {codes : List ℕ} {db : Db} (new_id auto : ℕ) (busy : List Imei)
      → IsOpen code db
      → (create_task show new_id auto (fill_form act code) busy db).result ≡ raised
      → Filled show act (code ∷ codes) db raised db

module _ (show : ℕ → String) (ids : ℕ → ℕ × ℕ) (act : String) where
  -- The places after one whose task was tried.
  abbrev after_place : List ℕ → ℕ → SiteRun → SiteRun
  after_place codes drawn run = elim run.result [
    | raised ↦ run
    | ok r ↦ fill_sites show ids act drawn codes run.busy run.db
  ]

  abbrev FillsAll : List ℕ → Type 0
  FillsAll codes =
      (drawn : ℕ) (busy : List Imei) (db : Db)
      → let run = fill_sites show ids act drawn codes busy db in
        Filled show act codes db run.result run.db

  tried-Filled :
      (code : ℕ) (codes : List ℕ) (drawn : ℕ) (busy : List Imei) (db : Db)
      → FillsAll codes
      → IsOpen code db
      → let c = create_task show (ids drawn).0 (ids drawn).1 (fill_form act code) busy db in
        let run = after_place codes (suc drawn) (filled db c) in
        Filled show act (code ∷ codes) db run.result run.db
  tried-Filled code codes drawn busy db all f = go c.result refl
    where
      c : Created
      c = create_task show (ids drawn).0 (ids drawn).1 (fill_form act code) busy db

      go :
          (m : Raises (Outcome × Db))
          → c.result ≡ m
          → let run = after_place codes (suc drawn) (filled db c) in
            Filled show act (code ∷ codes) db run.result run.db
      go raised g = rw g (stopped (ids drawn).0 (ids drawn).1 busy f g)
      go (ok (o, db')) g = rw g (
          tried (ids drawn).0 (ids drawn).1 busy o db' f g
            (create_task-Verdict show (ids drawn).0 (ids drawn).1 (fill_form act code) busy o db db'
              g)
            (all (suc drawn) c.busy db'))

  place-Filled :
      (code : ℕ) (codes : List ℕ) (drawn : ℕ) (busy : List Imei) (db : Db)
      → FillsAll codes
      → let run = after_place codes (suc drawn) (fill_place show ids act drawn code busy db) in
        Filled show act (code ∷ codes) db run.result run.db
  unfolding fill_place
  place-Filled code codes drawn busy db all = elim (open_place-cases code db) [
    | inl (t, open_) ↦ rw t (tried-Filled code codes drawn busy db all open_)
    | inr (f, shut) ↦ rw f (passed shut (all (suc drawn) busy db))
  ]

  pub fill_sites-Filled : (codes : List ℕ) → FillsAll codes
  unfolding fill_sites
  fill_sites-Filled [] drawn busy db = finished
  fill_sites-Filled (code ∷ codes) drawn busy db =
      place-Filled code codes drawn busy db (fill_sites-Filled codes)
