-- ===== src/Vehicle/Reports/Slots.antt =====
-- What a report on a storage row can make of the storages.
use ygvcs_py.Prelude.{
  ℕ, ◌≡◌, ◌⊎◌, inl, inr, refl, ap, Bool, Option, none, some, List, [], ◌∷◌, String, Bytes, ◌/◌,
  if◌then◌else◌, Bool-cases, arith, bit_and,
}
use mathlib.Core.Path.{subst}
use ygvcs_py.Prelude.Bits.{bit_and-two}
use ygvcs_py.Prelude.Raises.{Raises, ok, raised}
use ygvcs_py.Store.Query.{is_text, update_by_example}
use ygvcs_py.Store.Query.Sorted.{In}
use ygvcs_py.Store.Tables.{Storage, Db}
use ygvcs_py.Store.Repos.{save_storage}
use ygvcs_py.Vehicle.Memory.{field}
use ygvcs_py.Vehicle.Reports.{
  Reports, queue, reply_fork_state, first_site, with_status, set_row_status, update_row,
}

In-update :
    {A : Type 0} (f : A → A) (p : A → Bool) (rows : List A) (x : A)
    → In x (update_by_example f p rows)
    → In x rows ⊎ ((y : A) × (x ≡ f y))
unfolding update_by_example
In-update f p [] x h = absurd h
In-update f p (y ∷ rows) x (inl h) = elim (Bool-cases (p y)) [
  | inl t ↦ inr (y, (rw t at h))
  | inr t ↦ inl (inl (rw t at h))
]
In-update f p (y ∷ rows) x (inr h) = elim (In-update f p rows x h) [
  | inl i ↦ inl (inr i)
  | inr e ↦ inr e
]

-- A storage of the second tables was in the first, or has the status `v`.
abbrev FromOrSet : String → Db → Db → Type 0
FromOrSet v old new =
    (x : Storage) → In x new.storages → In x old.storages ⊎ (x.site_status ≡ some v)

set_row_status-FromOrSet :
    (v : String) (code : ℕ) (db : Db) → FromOrSet v db (set_row_status v code db)
unfolding set_row_status save_storage
set_row_status-FromOrSet v code db x h = go (first_site code db) h
  where
    go :
        (o : Option Storage)
        → In x
            (elim o as (λ _. Db) [
              | none ↦ db
              | some r ↦ if is_text r.site_type "2" then save_storage (with_status r v) db else db
            ]).storages
        → In x db.storages ⊎ (x.site_status ≡ some v)
    go none h = inl h
    go (some r) h = elim (Bool-cases (is_text r.site_type "2")) [
      | inr f ↦ inl (rw f at h)
      | inl t ↦ elim (In-update (λ _. with_status r v) _ db.storages x (rw t at h)) [
        | inl i ↦ inl i
        | inr e ↦ inr (ap (λ (r : Storage). r.site_status) e.1)
      ]
    ]

queue_same : (r : Raises (List ℕ)) (s : Reports) → (queue r s).db ≡ s.db
queue_same raised s = refl
queue_same (ok t) s = refl

reply_same : (i u f : ℕ) (s : Reports) → (reply_fork_state i u f s).db ≡ s.db
unfolding reply_fork_state
reply_same i u f s = queue_same _ s

-- After a report on a storage row, whatever the frame says, every storage is one of those before or
-- has the status "1": no frame makes the status of a row "0".
pub update_row_never_free :
    (frame : Bytes) (s : Reports) (x : Storage)
    → In x (update_row frame s).db.storages
    → In x s.db.storages ⊎ (x.site_status ≡ some "1")
unfolding update_row
update_row_never_free frame s x h = elim (row_flag (field frame 120 121 1)) [
  | inl z ↦ inl (rw z at h)
  | inr t ↦
      elim (set_row_status-FromOrSet "1" (field frame 18 21 3)
        (set_row_status "1" (field frame 15 18 3) s.db) x
        (subst (λ (d : Db). In x d.storages)
          (reply_same (field frame 8 12 4) (field frame 4 8 4) 4 _) (rw t at h))) [
            | inl i ↦ set_row_status-FromOrSet "1" (field frame 15 18 3) s.db x i
            | inr e ↦ inr e
          ]
]
  where
    row_flag : (n : ℕ) → (bit_and (n / 2) 2 ≡ 0) ⊎ (bit_and (n / 2) 2 ≡ 2)
    row_flag n = ground (arith, bit_and-two (n / 2))
