-- ===== src/Sites/Bound.antt =====
-- The rows that bind_all adds, place by place.
use mathlib.Core.Path.{subst}
use ygvcs_py.Prelude.{
  ℕ, ◌≡◌, ◌⊎◌, inl, inr, refl, sym, ap, ◌∙◌, true, Option, some, List, [], ◌∷◌, ◌++◌, String,
  ==_refl,
}
use ygvcs_py.Store.Query.{select}
use ygvcs_py.Store.Query.Sorted.{In, In-select}
use ygvcs_py.Store.Query.Rows.{In-append, append-In}
use ygvcs_py.Store.Tables.{StorageDeviceRelation}
use ygvcs_py.Sites.{StorageInfo, at_site, bind_all}

module _ (ids : ℕ → ℕ) (imei : String) (name type : Option String) where
  abbrev new_row : StorageInfo → StorageDeviceRelation
  new_row info = record {
    storage_device_relation_id = ids info.site_code;
    device_imei = some imei;
    device_name = name;
    type = type;
    site_code = some info.site_code;
    site_name = info.site_name;
    site_type = info.site_type;
    order_no = info.order_no;
  }

  -- The first place of the form has a row, or a row is added for it.
  bind_all-step :
      (info : StorageInfo) (infos : List StorageInfo) (rels : List StorageDeviceRelation)
      → ((bind_all ids imei name type (info ∷ infos) rels ≡ bind_all ids imei name type infos rels)
          × (y : StorageDeviceRelation) × In y rels
          × (at_site info.site_code y ≡ true))
        ⊎ (bind_all ids imei name type (info ∷ infos) rels
            ≡ bind_all ids imei name type infos (rels ++ new_row info ∷ []))
  unfolding bind_all
  bind_all-step info infos rels = go (select (at_site info.site_code) rels) refl
    where
      go :
          (found : List StorageDeviceRelation)
          → select (at_site info.site_code) rels ≡ found
          → ((bind_all ids imei name type (info ∷ infos) rels
                ≡ bind_all ids imei name type infos rels)
              × (y : StorageDeviceRelation) × In y rels
              × (at_site info.site_code y ≡ true))
            ⊎ (bind_all ids imei name type (info ∷ infos) rels
                ≡ bind_all ids imei name type infos (rels ++ new_row info ∷ []))
      go (y ∷ ys) f =
          let (m, at) =
            In-select (at_site info.site_code) rels y (subst (In y) (sym f) (inl refl)) in
          inl (rw (f, bind_all) refl, y, m, at)
      go [] f = inr (rw (f, bind_all) refl)

  pub bind_all-keeps :
      (infos : List StorageInfo) (rels : List StorageDeviceRelation) (x : StorageDeviceRelation)
      → In x rels
      → In x (bind_all ids imei name type infos rels)
  unfolding bind_all
  bind_all-keeps [] rels x m = m
  bind_all-keeps (info ∷ infos) rels x m = elim (bind_all-step info infos rels) [
    | inl (e, _, _, _) ↦ subst (In x) (sym e) (bind_all-keeps infos rels x m)
    | inr e ↦ subst (In x) (sym e) (
        bind_all-keeps infos (rels ++ new_row info ∷ []) x
          (append-In rels (new_row info ∷ []) x (inl m)))
  ]

  abbrev pub IsNew : List StorageInfo → StorageDeviceRelation → Type 0
  IsNew infos x =
      (x.device_imei ≡ some imei)
      × (info : StorageInfo) × In info infos
      × (x.site_code ≡ some info.site_code)

  later :
      (info : StorageInfo) (infos : List StorageInfo) (x : StorageDeviceRelation)
      → IsNew infos x
      → IsNew (info ∷ infos) x
  later info infos x (own, i, m, e) = (own, i, inr m, e)

  pub In-bind_all :
      (infos : List StorageInfo) (rels : List StorageDeviceRelation) (x : StorageDeviceRelation)
      → In x (bind_all ids imei name type infos rels)
      → In x rels ⊎ IsNew infos x
  unfolding bind_all
  In-bind_all [] rels x h = inl h
  In-bind_all (info ∷ infos) rels x h = elim (bind_all-step info infos rels) [
    | inl (e, _, _, _) ↦ elim (In-bind_all infos rels x (subst (In x) e h)) [
      | inl m ↦ inl m
      | inr n ↦ inr (later info infos x n)
    ]
    | inr e ↦ elim (In-bind_all infos (rels ++ new_row info ∷ []) x (subst (In x) e h)) [
      | inr n ↦ inr (later info infos x n)
      | inl m ↦ elim (In-append rels (new_row info ∷ []) x m) [
        | inl old ↦ inl old
        | inr (inl own) ↦ inr (
          ap (λ (r : StorageDeviceRelation). r.device_imei) own,
          info,
          inl refl,
          ap (λ (r : StorageDeviceRelation). r.site_code) own,
        )
        | inr (inr none_left) ↦ absurd none_left
      ]
    ]
  ]

  pub bind_all-binds :
      (infos : List StorageInfo) (rels : List StorageDeviceRelation) (info : StorageInfo)
      → In info infos
      → (x : StorageDeviceRelation) × In x (bind_all ids imei name type infos rels)
        × (at_site info.site_code x ≡ true)
  bind_all-binds [] rels info m = absurd m
  bind_all-binds (i ∷ infos) rels info (inr m) = elim (bind_all-step i infos rels) [
    | inl (e, _, _, _) ↦
        let (x, found, at) = bind_all-binds infos rels info m in (x, subst (In x) (sym e) found, at)
    | inr e ↦
        let (x, found, at) = bind_all-binds infos (rels ++ new_row i ∷ []) info m in
        (x, subst (In x) (sym e) found, at)
  ]
  bind_all-binds (i ∷ infos) rels info (inl same) = elim (bind_all-step i infos rels) [
    | inl (e, y, m, at) ↦ (
      y,
      subst (In y) (sym e) (bind_all-keeps infos rels y m),
      ap (λ (j : StorageInfo). at_site j.site_code y) same ∙ at,
    )
    | inr e ↦ (
      new_row i,
      subst (In (new_row i)) (sym e) (
          bind_all-keeps infos (rels ++ new_row i ∷ []) (new_row i)
            (append-In rels (new_row i ∷ []) (new_row i) (inr (inl refl)))),
      ap (λ (j : StorageInfo). at_site j.site_code (new_row i)) same ∙ ==_refl i.site_code,
    )
  ]
