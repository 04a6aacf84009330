-- ===== src/Vehicle/Camera/Ends.antt =====
-- How a report of a camera on a slot ends: with a status turned over, or why not.
use ygvcs_py.Prelude.{ℕ, ◌≤◌, ◌<◌, ◌≡◌, ◌≢◌, ◌⊎◌, Bool, true, false, ◌||◌, none, some, String, ◌==◌}
use ygvcs_py.Store.Query.{is_text, is_number}
use ygvcs_py.Store.Query.Sorted.{In}
use ygvcs_py.Store.Tables.{Storage, Device, StorageDeviceRelation, Db}
use ygvcs_py.Tcp.Dict.{get}
use ygvcs_py.Sites.{device_of, get_storage_by_code, edit_scan_storage_status}
use ygvcs_py.Vehicle.Camera.{slot_key, Observed}
use ygvcs_py.Vehicle.Camera.Places.{CameraRun, status_number, get_camera_storage_info, is_old}

-- The place of a camera's slot: the camera is in use, it is bound to the place under the slot's number,
-- and the place is in use, has another status than the state, and no task is at it.
pub record SlotPlace (show : ℕ → String) (camera number state code : ℕ) (db : Db) : Type 0 where
  pub device : Device
  pub relation : StorageDeviceRelation
  pub place : Storage
  pub camera_on :
      (device_of (show camera) db ≡ some device) × (is_text device.is_enable "1" ≡ false)
  pub related : In relation db.relations
  pub of_camera : is_text relation.device_imei (show camera) ≡ true
  pub of_slot : is_number relation.order_no number ≡ true
  pub at_code : relation.site_code ≡ some code
  pub found : get_storage_by_code code db ≡ some place
  pub place_on : is_text place.is_enable "1" ≡ false
  pub other_status : (state == status_number place.site_status) ≡ false
  pub no_task : (is_text place.site_status "2" || is_text place.site_status "3") ≡ false

-- The status of the slot's place was turned over: the entry of the slot held the state with a counter
-- of five or more, the state is not the one taken over last, and no task had changed the place just
-- now.
pub record TurnedOver (show : ℕ → String) (new_id auto : ℕ) (recent : ℕ → Bool)
    (camera number state : ℕ) (s s' : CameraRun) : Type 0 where
  pub seen : Observed
  pub code : ℕ
  pub at : SlotPlace show camera number state code s.db
  pub new : is_old (get s.cameras.old_states (slot_key camera number)) state ≡ false
  pub kept : get s.cameras.camera_states (slot_key camera number) ≡ some seen
  pub same : seen.state ≡ state
  pub often : 5 ≤ seen.number
  pub quiet : recent code ≡ false
  pub turned :
      s'.db
      ≡ (edit_scan_storage_status show new_id auto (show camera) (some "2") code s.busy s.db).db

-- Why no status was turned over.
pub data Unturned (show : ℕ → String) (recent : ℕ → Bool) (camera number state : ℕ) (s : CameraRun)
    : Type 0 where
  no_camera : device_of (show camera) s.db ≡ none → Unturned show recent camera number state s
  camera_off :
      (d : Device)
      → device_of (show camera) s.db ≡ some d
      → is_text d.is_enable "1" ≡ true
      → Unturned show recent camera number state s
  taken_before :
      get s.cameras.old_states (slot_key camera number) ≡ some state
      → Unturned show recent camera number state s
  unbound :
      get_camera_storage_info (show camera) number s.db ≡ none
      → Unturned show recent camera number state s
  no_code :
      (rel : StorageDeviceRelation)
      → get_camera_storage_info (show camera) number s.db ≡ some rel
      → rel.site_code ≡ none
      → Unturned show recent camera number state s
  no_place :
      (rel : StorageDeviceRelation) (code : ℕ)
      → get_camera_storage_info (show camera) number s.db ≡ some rel
      → rel.site_code ≡ some code
      → get_storage_by_code code s.db ≡ none
      → Unturned show recent camera number state s
  place_kept :
      (rel : StorageDeviceRelation) (code : ℕ) (r : Storage)
      → get_camera_storage_info (show camera) number s.db ≡ some rel
      → rel.site_code ≡ some code
      → get_storage_by_code code s.db ≡ some r
      → (is_text r.is_enable "1" ≡ true)
        ⊎ (recent code ≡ true)
        ⊎ ((state == status_number r.site_status
              || is_text r.site_status "2"
              || is_text r.site_status "3")
            ≡ true)
      → Unturned show recent camera number state s
  not_settled :
      (get s.cameras.camera_states (slot_key camera number) ≡ none)
        ⊎ ((cam : Observed) × (get s.cameras.camera_states (slot_key camera number) ≡ some cam)
            × ((cam.state ≢ state) ⊎ (cam.number < 5)))
      → Unturned show recent camera number state s
