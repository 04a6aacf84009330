-- ===== src/Sites/Binding.antt =====
-- Which rows stand after the places of a device were bound anew.
use mathlib.Core.Path.{subst}
use ygvcs_py.Prelude.{
  ℕ, ◌≡◌, ◌⊎◌, inl, inr, refl, sym, ap, ◌∙◌, Bool, true, false, not, ◌&&◌, Option, none, some, List,
  [], ◌∷◌, String, All, arith, Bool-cases,
}
use ygvcs_py.Store.Query.{is_text, select, delete}
use ygvcs_py.Store.Query.Sorted.{In, select-In}
use ygvcs_py.Store.Query.Rows.{In-delete, is_number-eq}
use ygvcs_py.Store.Tables.{StorageDeviceRelation, Db}
use ygvcs_py.Tasks.Reply.{success}
use ygvcs_py.Sites.Bound.{IsNew, bind_all-keeps, In-bind_all, bind_all-binds}
use ygvcs_py.Sites.{StorageInfo, at_site, conflict, bind_all, edit_storage_device}

All-In : {A : Type 0} (P : A → Type 0) (xs : List A) → ((x : A) → In x xs → P x) → All P xs
All-In P [] h = tt
All-In P (x ∷ xs) h = (h x (inl refl), All-In P xs (λ y m. h y (inr m)))

delete-In :
    {A : Type 0} (p : A → Bool) (rows : List A) (x : A)
    → In x rows
    → p x ≡ false
    → In x (delete p rows)
unfolding delete
delete-In p [] x m f = m
delete-In p (y ∷ rows) x m f = elim (Bool-cases (p y)) [
  | inl t ↦
      rw t
        (elim m [ inl e ↦ absurd (ground (arith, ap p e, t, f)) | inr l ↦ delete-In p rows x l f ])
  | inr g ↦ rw g (elim m [ inl e ↦ inl e | inr l ↦ inr (delete-In p rows x l f) ])
]

abbrev of_other : String → ℕ → StorageDeviceRelation → Bool
of_other imei code r = at_site code r && not (is_text r.device_imei imei)

conflict-head :
    (imei : String) (i : StorageInfo) (infos : List StorageInfo) (rels : List StorageDeviceRelation)
    → conflict imei (i ∷ infos) rels ≡ none
    → (select (of_other imei i.site_code) rels ≡ []) × (conflict imei infos rels ≡ none)
unfolding conflict
conflict-head imei i infos rels e = go (select (of_other imei i.site_code) rels) refl
  where
    go :
        (l : List StorageDeviceRelation)
        → select (of_other imei i.site_code) rels ≡ l
        → (select (of_other imei i.site_code) rels ≡ []) × (conflict imei infos rels ≡ none)
    go [] f = (f, rw (f, conflict) at e)
    go (y ∷ l) f = absurd (ground (arith, rw (f, conflict) at e))

-- A place of the form without conflict has no row of another device.
conflict-free :
    (imei : String) (infos : List StorageInfo) (rels : List StorageDeviceRelation)
    → conflict imei infos rels ≡ none
    → (info : StorageInfo) → In info infos
    → (x : StorageDeviceRelation) → In x rels
    → at_site info.site_code x ≡ true
    → is_text x.device_imei imei ≡ true
conflict-free imei [] rels e info m x n at = absurd m
conflict-free imei (i ∷ infos) rels e info (inr m) x n at =
    conflict-free imei infos rels (conflict-head imei i infos rels e).1 info m x n at
conflict-free imei (i ∷ infos) rels e info (inl same) x n at =
    elim (Bool-cases (is_text x.device_imei imei)) [
      | inl own ↦ own
      | inr other ↦
          let here = ap (λ (j : StorageInfo). at_site j.site_code x) (sym same) ∙ at in
          absurd (
            subst (In x) (conflict-head imei i infos rels e).0
              (select-In (of_other imei i.site_code) rels x n (rw (here, other) refl)))
    ]

-- How the rows stand after the places of a device were bound anew: each is one of the device for a
-- place of the form, or was there before and belongs to another device; those of other devices are
-- all kept; and each place of the form has a row of the device.
pub record Rebound (imei : String) (infos : List StorageInfo) (old new : List StorageDeviceRelation)
    : Type 0 where
  pub only :
      All
        (λ x.
          ((x.device_imei ≡ some imei)
            × (info : StorageInfo) × In info infos
            × (x.site_code ≡ some info.site_code))
          ⊎ (In x old × (is_text x.device_imei imei ≡ false)))
        new
  pub others : All (λ x. (is_text x.device_imei imei ≡ true) ⊎ In x new) old
  pub bound :
      All
        (λ (info : StorageInfo).
          (x : StorageDeviceRelation) × In x new
          × (x.device_imei ≡ some imei)
          × (x.site_code ≡ some info.site_code))
        infos

module _ (ids : ℕ → ℕ) (imei : String) (name type : Option String) (infos : List StorageInfo)
    (rels : List StorageDeviceRelation) where
  abbrev kept : List StorageDeviceRelation
  kept = delete (λ r. is_text r.device_imei imei) rels

  bind_all-Rebound :
      conflict imei infos rels ≡ none
      → Rebound imei infos rels (bind_all ids imei name type infos kept)
  bind_all-Rebound free = record {
    only = All-In _ _ only;
    others = All-In _ rels others;
    bound = All-In _ infos bound;
  }
    where
      only :
          (x : StorageDeviceRelation)
          → In x (bind_all ids imei name type infos kept)
          → IsNew ids imei name type infos x ⊎ (In x rels × (is_text x.device_imei imei ≡ false))
      only x m = elim (In-bind_all ids imei name type infos kept x m) [
        | inr new ↦ inl new
        | inl old ↦ inr (In-delete (λ r. is_text r.device_imei imei) rels x old)
      ]

      others :
          (x : StorageDeviceRelation)
          → In x rels
          → (is_text x.device_imei imei ≡ true) ⊎ In x (bind_all ids imei name type infos kept)
      others x m = elim (Bool-cases (is_text x.device_imei imei)) [
        | inl own ↦ inl own
        | inr other ↦ inr (
            bind_all-keeps ids imei name type infos kept x
              (delete-In (λ r. is_text r.device_imei imei) rels x m other))
      ]

      bound :
          (info : StorageInfo)
          → In info infos
          → (x : StorageDeviceRelation) × In x (bind_all ids imei name type infos kept)
            × (x.device_imei ≡ some imei)
            × (x.site_code ≡ some info.site_code)
      bound info m =
          let (x, found, at) = bind_all-binds ids imei name type infos kept info m in
          elim (In-bind_all ids imei name type infos kept x found) [
            | inr (own, _, _, _) ↦ (x, found, own, is_number-eq x.site_code info.site_code at)
            | inl old ↦
                let (there, other) = In-delete (λ r. is_text r.device_imei imei) rels x old in
                absurd (ground (arith, other, conflict-free imei infos rels free info m x there at))
          ]

-- Binding the places of a form to a device, none of which another device holds, succeeds. Each row
-- then is one of the device for a place of the form, or was there before and belongs to another
-- device; the rows of other devices are all there; and each place of the form has a row of the device.
pub edit_storage_device-In :
    (ids : ℕ → ℕ) (imei : String) (name type : Option String) (infos : List StorageInfo) (db : Db)
    → conflict imei infos db.relations ≡ none
    → let (r, db') = edit_storage_device ids imei name type infos db in
      (r ≡ success) × Rebound imei infos db.relations db'.relations
unfolding edit_storage_device
edit_storage_device-In ids imei name type infos db free =
    rw (free, edit_storage_device)
      (refl, bind_all-Rebound ids imei name type infos db.relations free)
