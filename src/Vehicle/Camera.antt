-- ===== src/Vehicle/Camera.antt =====
-- app/services/camera_table.py: the occupancy that a camera reports, slot by slot, and when it is
-- taken over. Redis holds, by camera and slot, the state taken over last and the state that is being
-- observed with a counter. The two numbers stand in one text without a sign between them, so a key is
-- the text of both.
pub mod Slots
pub mod Places
pub mod Ends
pub mod Changes
use ygvcs_py.Prelude.{
  ℕ, zero, suc, ◌+◌, ◌/◌, ◌%◌, Bool, true, false, not, ◌&&◌, ◌||◌, Option, none, some, List, [],
  ◌∷◌, ◌++◌, Text, Bytes, ltb, ◌==◌, if◌then◌else◌, length, String,
}
use ygvcs_py.Tcp.Bytes.{print_hex_string, bytes_to_int, split_byte}
use ygvcs_py.Tcp.Dict.{get, put, remove}
use ygvcs_py.Tcp.Futures.{decimal}

-- `bin(value)[2:].zfill(count)[-count:]`, read from its end: slot 1 is the lowest bit.
unfoldable pub slot_states : ℕ → ℕ → List ℕ
slot_states zero value = []
slot_states (suc count) value = value % 2 ∷ slot_states count (value / 2)

-- `save_camera_storage_states`: the camera and the state of each of its slots, or nothing for a
-- frame that is too short. A hex text has two characters for each byte.
unfoldable pub camera_states : Bytes → Option (ℕ × List ℕ)
unfolding slot_states
camera_states msg =
    if ltb (length (print_hex_string msg)) 68
    then none
    else some (
      bytes_to_int (split_byte (some msg) 8 12) 4,
      slot_states (bytes_to_int (split_byte (some msg) 23 24) 1)
          (bytes_to_int (split_byte (some msg) 24 28) 4),
    )

abbrev pub slot_key : ℕ → ℕ → Text
slot_key camera_imei number = decimal camera_imei ++ decimal number

-- CAMERA_STATES: the state of the last report and the counter of the debounce. The counter is 1 after
-- the first report of all; a report of another state sets it to 1 and, unless it settles, to 2.
pub record Observed : Type 0 where
  pub state : ℕ
  pub number : ℕ

pub record Cameras : Type 0 where
  pub old_states : List (Text × ℕ)
  pub camera_states : List (Text × Observed)

-- What the debounce settles: nothing more to do, or the state may be taken over.
pub data Debounced : Type 0 where
  waits : Cameras → Debounced
  settled : Cameras → Debounced

-- The entry that the report is held against: of another state, it starts again at 1.
abbrev pub observe : Observed → ℕ → Observed
observe cam state = if cam.state == state then cam else record { state = state; number = 1 }

-- `site_status` is the status of the place, as the number that its text shows.
unfoldable pub debounce : Text → ℕ → ℕ → Cameras → Debounced
debounce key state site_status s = elim (get s.camera_states key) [
  | none ↦
      waits (record s {
        camera_states = put s.camera_states key (record { state = state; number = 1 });
      })
  | some cam ↦
      let cam' = observe cam state in
      let s' : Cameras = record s { camera_states = put s.camera_states key cam' } in
      if (state == site_status && state == cam'.state) || not (ltb cam'.number 5)
      then settled (if cam.state == state then s else s')
      else waits (record s {
        camera_states =
            put s.camera_states key (record { state = state; number = cam'.number + 1 });
      })
]
