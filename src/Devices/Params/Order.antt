-- ===== src/Devices/Params/Order.antt =====
-- What a successful run of set_device_params has sent.
use mathlib.Core.Path.{subst}
use ygvcs_py.Prelude.{
  ℕ, suc, ◌≡◌, ◌≢◌, refl, ap, inl, inr, Bool, true, false, Option, none, some, List, [], ◌∷◌, Text,
  Bytes, Bool-cases, arith,
}
use ygvcs_py.Prelude.Raises.{Raises, ok, raised}
use ygvcs_py.Tasks.Reply.{JsonResult, success}
use ygvcs_py.Tcp.Futures.{JsonMsg}
use ygvcs_py.Vehicle.Memory.{MemoryTable}
use ygvcs_py.Devices.Params.{
  param_frame, send_built, send_params, unless_failed, is_success, is_connected,
  DeviceParamsSetForm, wanted, set_device_params,
}

false_ne : false ≢ true
false_ne e = ground arith

-- The run has answered a success.
abbrev ends : {W : Type 0} → Raises JsonResult × W → Bool
ends (raised, w) = false
ends (ok j, w) = is_success j

module _ {W : Type 0} (send : Text → W → JsonMsg × W) {F : Type 0} (positive : F → Bool)
    (clamped : F → F) (pack : F → Raises Bytes) (random : ℕ → ℕ) (imei : ℕ) where
  -- Every value in order went out in a frame that the vehicle took, and nothing else did.
  pub data Taken : ℕ → List (ℕ × ℕ × Option F) → W → W → Type 0 where
    none_left : {drawn : ℕ} {w : W} → Taken drawn [] w w
    skipped :
        {drawn table_no index : ℕ} {params : List (ℕ × ℕ × Option F)} {w w' : W}
        → Taken drawn params w w'
        → Taken drawn ((table_no, index, none) ∷ params) w w'
    taken :
        {drawn table_no index : ℕ} {value : F} {params : List (ℕ × ℕ × Option F)} {frame : Text}
        {w w' : W}
        → param_frame send positive clamped pack (random drawn) imei table_no index (pack value)
          ≡ ok frame
        → (send frame w).0.status ≡ true
        → Taken (suc drawn) params (send frame w).1 w'
        → Taken drawn ((table_no, index, some value) ∷ params) w w'

  -- The values after one that was sent.
  abbrev after : ℕ → List (ℕ × ℕ × Option F) → Raises JsonResult × W → Raises JsonResult × W
  after drawn params sent =
      unless_failed send positive clamped pack sent
        (send_params send positive clamped pack random imei drawn params sent.1)

  abbrev IsTaken : ℕ → List (ℕ × ℕ × Option F) → Type 0
  IsTaken drawn params =
      (w : W)
      → ends (send_params send positive clamped pack random imei drawn params w) ≡ true
      → Taken drawn params w (send_params send positive clamped pack random imei drawn params w).1

  send_built-Taken :
      (drawn table_no index : ℕ) (value : F) (params : List (ℕ × ℕ × Option F)) (m : Raises Text)
      (w : W)
      → IsTaken (suc drawn) params
      → param_frame send positive clamped pack (random drawn) imei table_no index (pack value) ≡ m
      → ends (after (suc drawn) params (send_built send m w)) ≡ true
      → Taken drawn
          ((table_no, index, some value) ∷ params)
          w
          (after (suc drawn) params (send_built send m w)).1
  send_built-Taken drawn table_no index value params raised w all f e = absurd (false_ne e)
  send_built-Taken drawn table_no index value params (ok frame) w all f e =
      elim (Bool-cases (send frame w).0.status) [
        | inl t ↦ rw t (taken f t (all (send frame w).1 (rw t at e)))
        | inr t ↦ absurd (false_ne (rw t at e))
      ]

  pub send_params-Taken : (drawn : ℕ) (params : List (ℕ × ℕ × Option F)) → IsTaken drawn params
  unfolding send_params
  send_params-Taken drawn [] w e = none_left
  send_params-Taken drawn ((table_no, index, none) ∷ params) w e =
      skipped (send_params-Taken drawn params w e)
  send_params-Taken drawn ((table_no, index, some value) ∷ params) w e =
      send_built-Taken drawn table_no index value params
        (param_frame send positive clamped pack (random drawn) imei table_no index (pack value)) w
        (send_params-Taken (suc drawn) params) refl e

-- Setting the parameters of a vehicle succeeds only for one that is connected, and then each of the
-- values that are given and positive went out once, in the form's order and the width within its
-- bounds, in a frame that the vehicle took, and nothing else was sent.
pub set_device_params-Taken :
    {W : Type 0} (send : Text → W → JsonMsg × W) {F : Type 0} (positive : F → Bool)
    (clamped : F → F) (pack : F → Raises Bytes) (random : ℕ → ℕ) (table : Option MemoryTable)
    (form : DeviceParamsSetForm F) (w w' : W)
    → set_device_params send positive clamped pack random table form w ≡ (ok success, w')
    → (is_connected table ≡ true)
      × Taken send positive clamped pack random form.device_imei 0
          (wanted send positive clamped pack form)
          w
          w'
unfolding set_device_params
set_device_params-Taken send positive clamped pack random table form w w' e =
    elim (Bool-cases (is_connected table)) [
      | inl c ↦
          let out =
            send_params send positive clamped pack random form.device_imei 0
              (wanted send positive clamped pack form) w in
          let e' : out ≡ (ok success, w') = rw c at e in
          (
            c,
            subst
                (Taken send positive clamped pack random form.device_imei 0
                  (wanted send positive clamped pack form) w)
                (ap (λ r. r.1) e')
                (send_params-Taken send positive clamped pack random form.device_imei 0
                  (wanted send positive clamped pack form) w (ap ends e')),
          )
      | inr c ↦ absurd (false_ne (ap ends (rw c at e)))
    ]
