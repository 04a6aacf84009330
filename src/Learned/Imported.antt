-- ===== src/Learned/Imported.antt =====
-- Which places stand after an import.
use ygvcs_py.Prelude.{
  ℕ, suc, ◌≡◌, refl, ap, inl, inr, Bool, false, Option, some, List, [], ◌∷◌, String, map,
  Bool-cases,
}
use mathlib.Core.Path.{subst}
use ygvcs_py.Prelude.Raises.{Raises, ok, raised}
use ygvcs_py.Store.Query.{select}
use ygvcs_py.Store.Query.Sorted.{select-kept, select-cut}
use ygvcs_py.Store.Tables.{Storage, SiteManage}
use ygvcs_py.Tasks.Reply.{Notice, JsonResult, success, fail}
use ygvcs_py.Devices.{is_written}
use ygvcs_py.Learned.{
  ForkliftLine, Learned, append_storage, is_storage, storages_of, ExportSqlInfo, import_data,
  import_lists, write_lists, replace_with, import_sql_info,
}

-- What an import says of a place: its station and its status.
abbrev pub place_of : Storage → Option ℕ × Option String
place_of s = (s.site_code, s.site_status)

abbrev pub empty_place : SiteManage → Option ℕ × Option String
empty_place sm = (sm.site_manage_id, some "0")

storages_of-places :
    (ids : ℕ → String) (drawn : ℕ) (sms : List SiteManage)
    → map place_of (storages_of ids drawn sms) ≡ map empty_place (select is_storage sms)
unfolding storages_of append_storage
storages_of-places ids drawn [] = unfold select in refl
storages_of-places ids drawn (sm ∷ sms) = elim (Bool-cases (is_storage sm)) [
  | inl e ↦
      rw (e, select-kept is_storage sm sms e)
        (ap (λ l. empty_place sm ∷ l) (storages_of-places ids (suc drawn) sms))
  | inr e ↦ rw (e, select-cut is_storage sm sms e) (storages_of-places ids drawn sms)
]

-- What a successful import leaves: the data's stations and lines alone, and an empty place for each
-- station with the attribute of one, in the data's order.
pub record Replaced (sms : List SiteManage) (lines : List ForkliftLine) (s s' : Learned)
    : Type 0 where
  pub stations : s'.db.site_manages ≡ sms
  pub learned : s'.lines ≡ lines
  pub places : map place_of s'.db.storages ≡ map empty_place (select is_storage sms)
  pub tasks : s'.db.user_tasks ≡ s.db.user_tasks

module _ (takes : Learned → Bool) (ids : ℕ → String) where
  -- How an import of a text ends, `m` being what the text parsed to.
  pub data Imported (content : String) (m : Raises ExportSqlInfo) (s : Learned)
      : Raises JsonResult × Learned → Type 0 where
    blank :
        {n : Notice} → is_written (some content) ≡ false → Imported content m s (ok (fail "1" n), s)
    unreadable : {n : Notice} → m ≡ raised → Imported content m s (ok (fail "1" n), s)
    empty :
        {dto : ExportSqlInfo} {n : Notice}
        → m ≡ ok dto
        → dto.site_manage_list ≡ []
        → Imported content m s (ok (fail "1" n), s)
    not_taken :
        {dto : ExportSqlInfo}
        → m ≡ ok dto
        → takes (replace_with ids dto.site_manage_list dto.forklift_line_list s) ≡ false
        → Imported content m s (raised, s)
    replaced :
        {dto : ExportSqlInfo} {s' : Learned}
        → m ≡ ok dto
        → Replaced dto.site_manage_list dto.forklift_line_list s s'
        → Imported content m s (ok success, s')

  replace_with-Replaced :
      (sms : List SiteManage) (lines : List ForkliftLine) (s : Learned)
      → Replaced sms lines s (replace_with ids sms lines s)
  replace_with-Replaced sms lines s = record {
    stations = refl;
    learned = refl;
    places = storages_of-places ids 0 sms;
    tasks = refl;
  }

  write_lists-Imported :
      (content : String) (dto : ExportSqlInfo) (s : Learned)
      → Imported content
          (ok dto)
          s
          (write_lists takes ids dto.site_manage_list dto.forklift_line_list s)
  write_lists-Imported content dto s =
      elim (Bool-cases (takes (replace_with ids dto.site_manage_list dto.forklift_line_list s))) [
        | inl e ↦
            rw (e)
              (replaced refl (replace_with-Replaced dto.site_manage_list dto.forklift_line_list s))
        | inr e ↦ rw (e) (not_taken refl e)
      ]

  import_lists-Imported :
      (content : String) (dto : ExportSqlInfo) (sms : List SiteManage) (s : Learned)
      → dto.site_manage_list ≡ sms
      → Imported content (ok dto) s (import_lists takes ids sms dto.forklift_line_list s)
  import_lists-Imported content dto [] s e = empty refl e
  import_lists-Imported content dto (sm ∷ sms) s e =
      subst (λ l. Imported content (ok dto) s (write_lists takes ids l dto.forklift_line_list s)) e
        (write_lists-Imported content dto s)

  import_data-Imported :
      (content : String) (m : Raises ExportSqlInfo) (s : Learned)
      → Imported content m s (import_data takes ids m s)
  import_data-Imported content raised s = unreadable refl
  import_data-Imported content (ok dto) s =
      import_lists-Imported content dto dto.site_manage_list s refl

  -- An import of any text fails and changes nothing, and then the text is blank, does not parse or has
  -- no station; or the database raises, and nothing is changed; or it succeeds, and then the text's
  -- stations and lines alone stand, one empty place stands for each station with the attribute of one,
  -- in the text's order, and the tasks are as before.
  pub import_sql_info-Imported :
      (parse : String → Raises ExportSqlInfo) (content : String) (s : Learned)
      → Imported content (parse content) s (import_sql_info takes ids parse (some content) s)
  unfolding import_sql_info
  import_sql_info-Imported parse content s = elim (Bool-cases (is_written (some content))) [
    | inl e ↦ rw (e) (import_data-Imported content (parse content) s)
    | inr e ↦ rw (e) (blank e)
  ]
