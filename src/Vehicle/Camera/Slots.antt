-- ===== src/Vehicle/Camera/Slots.antt =====
-- The slots of a camera, and the counter that a new state needs.
use ygvcs_py.Prelude.{
  ℕ, zero, suc, ◌+◌, ◌*◌, ◌/◌, ◌^◌, ◌<◌, ◌≡◌, ◌≢◌, refl, Option, none, some, List, [], ◌∷◌, Text,
  ◌==◌, length, arith, ◌⊎◌, inl, inr, ◌≤◌, Bool-cases, ==→eq, eq→==, ltb, ltb→lt,
}
use native.Mathlib.Nat.{pow-suc}
use ygvcs_py.Tcp.Dict.{get}
use ygvcs_py.Vehicle.Camera.{slot_states, Observed, Cameras, waits, settled, debounce}

-- The number that the slots' bits write, slot 1 lowest.
abbrev pub bits_value : List ℕ → ℕ
bits_value [] = 0
bits_value (b ∷ bs) = b + 2 * bits_value bs

-- Of a value below `2 ^ count` the slots hold every bit: there are `count` of them, and they write
-- the value.
pub slot_states-bits_value :
    (count value : ℕ)
    → value < 2 ^ count
    → (length (slot_states count value) ≡ count) × (bits_value (slot_states count value) ≡ value)
unfolding slot_states
slot_states-bits_value zero value h = (refl, omega arith)
slot_states-bits_value (suc count) value h =
    let (n, v) = slot_states-bits_value count (value / 2) (omega (arith, pow-suc 2 count)) in
    (omega (arith, n), omega (arith, v))

-- A state that the debounce lets through is the status that the place has already, or the entry held
-- it with a counter of five or more.
pub debounce-settled :
    (key : Text) (state site_status : ℕ) (s s' : Cameras)
    → debounce key state site_status s ≡ settled s'
    → (state ≡ site_status)
      ⊎ ((cam : Observed) × (get s.camera_states key ≡ some cam)
          × (cam.state ≡ state)
          × (5 ≤ cam.number))
unfolding debounce
debounce-settled key state site_status s s' e = go (get s.camera_states key) refl
  where
    go :
        (o : Option Observed)
        → get s.camera_states key ≡ o
        → (state ≡ site_status)
          ⊎ ((cam : Observed) × (get s.camera_states key ≡ some cam)
              × (cam.state ≡ state)
              × (5 ≤ cam.number))
    go none f = absurd (ground (arith, rw (f, debounce) at e))
    go (some cam) f = elim (Bool-cases (state == site_status)) [
      | inl same ↦ inl (==→eq state site_status same)
      | inr other ↦ elim (Bool-cases (cam.state == state)) [
        | inl held ↦
            inr (
              cam,
              f,
              ==→eq cam.state state held,
              ground (arith, rw (f, other, held, debounce) at e),
            )
        | inr new ↦ absurd (ground (arith, rw (f, other, new, debounce) at e))
      ]
    ]

-- A state that the debounce holds back has no entry, or another state's, or one with a counter below
-- five.
pub debounce-waits :
    (key : Text) (state site_status : ℕ) (s s' : Cameras)
    → debounce key state site_status s ≡ waits s'
    → (get s.camera_states key ≡ none)
      ⊎ ((cam : Observed) × (get s.camera_states key ≡ some cam)
          × ((cam.state ≢ state) ⊎ (cam.number < 5)))
unfolding debounce
debounce-waits key state site_status s s' e = go (get s.camera_states key) refl
  where
    go :
        (o : Option Observed)
        → get s.camera_states key ≡ o
        → (get s.camera_states key ≡ none)
          ⊎ ((cam : Observed) × (get s.camera_states key ≡ some cam)
              × ((cam.state ≢ state) ⊎ (cam.number < 5)))
    go none f = inl f
    go (some cam) f = elim (Bool-cases (cam.state == state)) [
      | inr new ↦
          inr (cam, f, inl (λ same. absurd (ground (arith, eq→== cam.state state same, new))))
      | inl held ↦ elim (Bool-cases (ltb cam.number 5)) [
        | inl low ↦ inr (cam, f, inr (ltb→lt cam.number 5 low))
        | inr high ↦ absurd (ground (arith, rw (f, held, high, debounce) at e))
      ]
    ]
