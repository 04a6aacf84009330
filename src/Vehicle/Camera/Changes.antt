-- ===== src/Vehicle/Camera/Changes.antt =====
-- What a report of a camera may change in the tables, and after how many sightings.
use ygvcs_py.Prelude.{ℕ, ◌≡◌, ◌⊎◌, Bool, true, false, ◌&&◌, Option, none, some, String}
use ygvcs_py.Prelude.Raises.{Raises}
use ygvcs_py.Store.Query.{is_text, is_number}
use ygvcs_py.Store.Query.Sorted.{In}
use ygvcs_py.Store.Tables.{Device, StorageDeviceRelation}
use ygvcs_py.Tcp.Dict.{get}
use ygvcs_py.Sites.{device_of}
use ygvcs_py.Vehicle.Camera.{slot_key}
use ygvcs_py.Vehicle.Camera.Ends.{TurnedOver, Unturned}
use ygvcs_py.Vehicle.Camera.Places.{CameraRun, is_old}

abbrev or_default : {A : Type 0} → A → Option A → A
or_default d none = d
or_default d (some x) = x

module _ (show : ℕ → String) (new_id auto : ℕ) (recent : ℕ → Bool) (camera number state : ℕ)
    (s : CameraRun) where
  abbrev Verdict : CameraRun → Type 0
  Verdict s' =
      ((s'.db ≡ s.db) × Unturned show recent camera number state s)
      ⊎ TurnedOver show new_id auto recent camera number state s s'

  -- What is known of the slot when its place is looked at.
  abbrev Reported : Device → Type 0
  Reported d =
      (device_of (show camera) s.db ≡ some d)
      × (is_text d.is_enable "1" ≡ false)
      × (is_old (get s.cameras.old_states (slot_key camera number)) state ≡ false)

  abbrev Related : StorageDeviceRelation → Type 0
  Related rel =
      In rel s.db.relations
      × ((is_text rel.device_imei (show camera) && is_number rel.order_no number) ≡ true)
