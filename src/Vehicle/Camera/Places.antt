-- ===== src/Vehicle/Camera/Places.antt =====
-- app/services/camera_table.py, is_update_storage and the loop over the slots: when what a camera
-- sees becomes the status of a place. `recent` tells the places whose status a task changed in the
-- last seconds (the key STORAGE_STATE). A place or a binding without a station number, for which
-- the code's queries would not be limited to one, is left out.
use ygvcs_py.Prelude.{
  ℕ, ◌+◌, Bool, true, false, ◌&&◌, ◌||◌, Option, none, some, List, [], ◌∷◌, String, ◌==◌,
  if◌then◌else◌, first, Text,
}
use ygvcs_py.Prelude.Raises.{ok, raised}
use ygvcs_py.Store.Query.{is_text, is_number, select}
use ygvcs_py.Store.Tables.{Storage, Device, StorageDeviceRelation, Db}
use ygvcs_py.Tasks.Create.{Imei}
use ygvcs_py.Tcp.Dict.{get, put, remove}
use ygvcs_py.Sites.{SiteRun, device_of, get_storage_by_code, edit_scan_storage_status}
use ygvcs_py.Vehicle.Camera.{slot_states, slot_key, Cameras, Debounced, waits, settled, debounce}

-- What a camera's report changes. `stopped` says that an exception ended the handling.
pub record CameraRun : Type 0 where
  pub cameras : Cameras
  pub db : Db
  pub busy : List Imei
  pub stopped : Bool

-- The status of a place as a number, for the states 0 and 1 of a slot; 2 is any other.
abbrev pub status_number : Option String → ℕ
status_number status = if is_text status "0" then 0 else if is_text status "1" then 1 else 2

-- `get_camera_storage_info`
unfoldable pub get_camera_storage_info : String → ℕ → Db → Option StorageDeviceRelation
unfolding select
get_camera_storage_info imei number db =
    first (select (λ r. is_text r.device_imei imei && is_number r.order_no number) db.relations)

abbrev pub is_old : Option ℕ → ℕ → Bool
is_old none state = false
is_old (some old) state = old == state

-- After the storage service turned the status over: the state is the one taken over last.
abbrev pub taken_over : Text → ℕ → CameraRun → SiteRun → CameraRun
taken_over key state s run = elim run.result [
  | raised ↦ record s { db = run.db; busy = run.busy; stopped = true }
  | ok _ ↦ record s {
    db = run.db;
    busy = run.busy;
    cameras = record {
      old_states = put s.cameras.old_states key state;
      camera_states = remove s.cameras.camera_states key;
    };
  }
]

module _ (show : ℕ → String) (new_id auto : ℕ) (recent : ℕ → Bool) where
  -- The place's status is left where a task is at it, or changed it just now.
  abbrev pub after_debounce : ℕ → ℕ → ℕ → ℕ → Option String → CameraRun → Debounced → CameraRun
  after_debounce camera number state code status s (waits c) = record s { cameras = c }
  after_debounce camera number state code status s (settled c) =
      if recent code
      then record s { cameras = c }
      else if state == status_number status || is_text status "2" || is_text status "3"
      then record s { cameras = c }
      else taken_over (slot_key camera number) state (record s { cameras = c })
          (edit_scan_storage_status show new_id auto (show camera) (some "2") code s.busy s.db)

  abbrev pub update_place : ℕ → ℕ → ℕ → ℕ → Option Storage → CameraRun → CameraRun
  update_place camera number state code none s = s
  update_place camera number state code (some r) s =
      if is_text r.is_enable "1"
      then s
      else after_debounce camera number state code r.site_status s
          (debounce (slot_key camera number) state (status_number r.site_status) s.cameras)

  abbrev pub update_code : ℕ → ℕ → ℕ → Option ℕ → CameraRun → CameraRun
  update_code camera number state none s = s
  update_code camera number state (some code) s =
      update_place camera number state code (get_storage_by_code code s.db) s

  abbrev pub update_bound : ℕ → ℕ → ℕ → Option StorageDeviceRelation → CameraRun → CameraRun
  update_bound camera number state none s = s
  update_bound camera number state (some rel) s = update_code camera number state rel.site_code s

  abbrev pub update_camera : ℕ → ℕ → ℕ → Option Device → CameraRun → CameraRun
  update_camera camera number state none s = s
  update_camera camera number state (some d) s =
      if is_text d.is_enable "1"
      then s
      else if is_old (get s.cameras.old_states (slot_key camera number)) state
      then s
      else update_bound camera number state (get_camera_storage_info (show camera) number s.db) s

  unfoldable pub is_update_storage : ℕ → ℕ → ℕ → CameraRun → CameraRun
  unfolding get_camera_storage_info debounce get_storage_by_code edit_scan_storage_status
  is_update_storage camera number state s =
      update_camera camera number state (device_of (show camera) s.db) s

  -- The loop over the slots, which an exception ends.
  unfoldable pub update_slots : ℕ → ℕ → List ℕ → CameraRun → CameraRun
  unfolding is_update_storage
  update_slots camera number [] s = s
  update_slots camera number (state ∷ states) s =
      if s.stopped
      then s
      else update_slots camera (number + 1) states (is_update_storage camera number state s)

  unfoldable pub analyzing_storage_state : ℕ → ℕ → ℕ → CameraRun → CameraRun
  unfolding update_slots slot_states
  analyzing_storage_state camera count value s = update_slots camera 1 (slot_states count value) s
