-- ===== src/Devices/Naming.antt =====
-- Which names an edit refuses.
use ygvcs_py.Prelude.{◌≡◌, ◌≢◌, refl, true, some, List, [], ◌∷◌, String}
use mathlib.Core.Path.{subst}
use text.Mathlib.TextPositions.{eq_refl}
use ygvcs_py.Store.Query.{select, select_one}
use ygvcs_py.Store.Query.Sorted.{In, select-In}
use ygvcs_py.Store.Tables.{Device}
use ygvcs_py.Tasks.Reply.{fail, notice}
use ygvcs_py.Devices.{is_written, Devices, DeviceEditForm, has_imei, has_name, any_row, edit_device}

any_row-some : (l : List Device) → l ≢ [] → any_row l ≡ true
any_row-some [] h = absurd (h refl)
any_row-some (d ∷ l) h = refl

-- An edit that gives a device the name that a row has, the device's own row included, is refused as
-- a name that exists, and changes nothing.
pub edit_device-name_taken :
    (form : DeviceEditForm) (s : Devices) (d e : Device) (name : String)
    → select_one (has_imei form.device_imei) s.db.devices ≡ some d
    → form.device_name ≡ some name
    → is_written (some name) ≡ true
    → In e s.db.devices
    → e.device_name ≡ some name
    → edit_device form s ≡ (fail "1" (notice "device.addDevice.nameExists"), s)
unfolding edit_device
edit_device-name_taken form s d e name found given written m named =
    rw (edit_device, found, given, written, taken) refl
  where
    taken : any_row (select (has_name name) s.db.devices) ≡ true
    taken = any_row-some (select (has_name name) s.db.devices) (λ none_there.
        subst (In e) none_there
          (select-In (has_name name) s.db.devices e m (rw named (eq_refl name))))
