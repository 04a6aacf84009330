-- ===== src/Sites/Working.antt =====
-- A place where a task is at work.
use ygvcs_py.Prelude.{
  ℕ, ◌≡◌, inl, inr, refl, true, false, ◌||◌, Option, some, List, [], ◌∷◌, String, Bool-cases,
  Option-cases,
}
use ygvcs_py.Store.Query.{is_text, select}
use ygvcs_py.Store.Tables.{Storage, Device, StorageDeviceRelation, Db}
use ygvcs_py.Tasks.Create.{Imei}
use ygvcs_py.Sites.{get_storage_by_code, device_of, is_bound, edit_scan_storage_status}

-- A scan at a place whose status is "2" or "3" changes no table, whoever scans.
pub edit_scan_storage_status_working :
    (show : ℕ → String) (new_id auto : ℕ) (imei : String) (type : Option String) (site_code : ℕ)
    (busy : List Imei) (db : Db) (r : Storage)
    → get_storage_by_code site_code db ≡ some r
    → (is_text r.site_status "2" || is_text r.site_status "3") ≡ true
    → (edit_scan_storage_status show new_id auto imei type site_code busy db).db ≡ db
unfolding edit_scan_storage_status
edit_scan_storage_status_working show new_id auto imei type site_code busy db r found works =
    elim (Option-cases (device_of imei db)) [
      | inl e ↦ rw (e, edit_scan_storage_status) refl
      | inr (d, e) ↦ elim (Bool-cases (is_text d.is_enable "1")) [
        | inl off ↦ rw (e, off, edit_scan_storage_status) refl
        | inr on ↦ bound d e on (select (is_bound imei site_code) db.relations) refl
      ]
    ]
  where
    bound :
        (d : Device)
        → device_of imei db ≡ some d
        → is_text d.is_enable "1" ≡ false
        → (rels : List StorageDeviceRelation) → select (is_bound imei site_code) db.relations ≡ rels
        → (edit_scan_storage_status show new_id auto imei type site_code busy db).db ≡ db
    bound d e on [] f = rw (e, on, f, edit_scan_storage_status) refl
    bound d e on (x ∷ xs) f = elim (Bool-cases (is_text r.is_enable "1")) [
      | inl off ↦ rw (e, on, f, found, off, edit_scan_storage_status) refl
      | inr open_ ↦ rw (e, on, f, found, open_, works, edit_scan_storage_status) refl
    ]
