-- ===== src/Ids/Order.antt =====
-- Ids grow, as long as the clock does not go back.
use ygvcs_py.Prelude.{
  ◌⊎◌, inl, inr, Bool-cases, ==→eq, ℕ, ◌+◌, ◌-◌, ◌*◌, ◌%◌, ◌<◌, ◌≤◌, ◌≡◌, refl, sym, ap, ◌∙◌, some,
  ◌==◌, bit_and, bit_or, arith,
}
use ygvcs_py.Prelude.Bits.{bit_or-shift, bit_and-4095}
use ygvcs_py.Ids.{twepoch, SnowFlakeIds, assemble, next_id}

-- The four fields of an id stand side by side.
assemble_sum :
    (t d w s : ℕ)
    → d < 32
    → w < 32
    → s < 4096
    → assemble t d w s ≡ (t - twepoch) * 4194304 + d * 131072 + w * 4096 + s
unfolding assemble
assemble_sum t d w s p q r =
    let x = t - twepoch in
    let one = bit_or-shift 22 x (d * 131072) (omega arith) in
    let two = bit_or-shift 17 (x * 32 + d) (w * 4096) (omega arith) in
    let three = bit_or-shift 12 ((x * 32 + d) * 32 + w) s (omega arith) in
    let e1 : (x * 32 + d) * 131072 ≡ x * 4194304 + d * 131072 = omega arith in
    let e2 : ((x * 32 + d) * 32 + w) * 4096 ≡ x * 4194304 + d * 131072 + w * 4096 = omega arith in
    ap (λ (y : ℕ). bit_or (bit_or y (w * 4096)) s) one
    ∙ ap (λ (y : ℕ). bit_or (bit_or y (w * 4096)) s) (sym e1)
    ∙ ap (λ (y : ℕ). bit_or y s) (two ∙ ap (λ (y : ℕ). y + w * 4096) e1)
    ∙ ap (λ (y : ℕ). bit_or y s) (sym e2)
    ∙ three
    ∙ ap (λ (y : ℕ). y + s) e2

-- What an id of `s` at time `t` is: the parts fit their fields.
assemble_bounds :
    (t u d w s r : ℕ)
    → d < 32
    → w < 32
    → s < 4096
    → r < 4096
    → twepoch ≤ t
    → (t < u) ⊎ ((t ≡ u) × (s < r))
    → assemble t d w s < assemble u d w r
assemble_bounds t u d w s r p q a b h (inl lt) =
    omega (arith, assemble_sum t d w s p q a, assemble_sum u d w r p q b)
assemble_bounds t u d w s r p q a b h (inr e) =
    omega (arith, assemble_sum t d w s p q a, assemble_sum u d w r p q b, e.0, e.1)

-- The state that an id of the generator left behind.
pub record IsRunning (s : SnowFlakeIds) (last : ℕ) : Type 0 where
  pub worker_fits : s.worker_id < 32
  pub datacenter_fits : s.datacenter_id < 32
  pub sequence_fits : s.sequence < 4096
  pub last_is : s.last_timestamp ≡ some last
  pub after_twepoch : twepoch ≤ last

-- From a generator whose last id was assembled at time `last`, with the fields in range, a call at a
-- time `now` no earlier, where the time it waits for is later than `now`, gives an id greater than
-- that last one, and its new state is running again at its new time.
pub next_id_grows :
    (now later last : ℕ) (s : SnowFlakeIds)
    → IsRunning s last
    → last ≤ now
    → now < later
    → (assemble last s.datacenter_id s.worker_id s.sequence < (next_id now later s).0)
      × ((next : ℕ) × (IsRunning ((next_id now later s).1) next)
          × ((next_id now later s).0
              ≡ assemble next s.datacenter_id s.worker_id (next_id now later s).1.sequence))
unfolding next_id assemble
next_id_grows now later last s h p q = elim (Bool-cases (last == now)) [
  | inr b ↦
      rw (h.last_is, b)
        (grown now 0 (omega arith) (omega (arith, p, h.after_twepoch)) (inl (ground (arith, b))))
  | inl b ↦ elim (Bool-cases (bit_and (s.sequence + 1) 4095 == 0)) [
    | inl c ↦
        rw (h.last_is, b, c)
          (grown later (bit_and (s.sequence + 1) 4095) (omega (arith, mask))
            (omega (arith, p, q, h.after_twepoch)) (inl (omega (arith, p, q))))
    | inr c ↦
        rw (h.last_is, b, c)
          (grown now (bit_and (s.sequence + 1) 4095) (omega (arith, mask))
            (omega (arith, p, h.after_twepoch))
            (inr (==→eq last now b, ground (arith, mask, c, h.sequence_fits))))
  ]
]
  where
    mask : bit_and (s.sequence + 1) 4095 ≡ (s.sequence + 1) % 4096
    mask = bit_and-4095 (s.sequence + 1)

    grown :
        (t r : ℕ)
        → r < 4096
        → twepoch ≤ t
        → (last < t) ⊎ ((last ≡ t) × (s.sequence < r))
        → (assemble last s.datacenter_id s.worker_id s.sequence
            < assemble t s.datacenter_id s.worker_id r)
          × ((next : ℕ) × (IsRunning (record s { sequence = r; last_timestamp = some t }) next)
              × (assemble t s.datacenter_id s.worker_id r
                  ≡ assemble next s.datacenter_id s.worker_id r))
    grown t r a b c = (
      assemble_bounds last t s.datacenter_id s.worker_id s.sequence r h.datacenter_fits
          h.worker_fits h.sequence_fits a h.after_twepoch c,
      (
        t,
        record {
          worker_fits = h.worker_fits;
          datacenter_fits = h.datacenter_fits;
          sequence_fits = a;
          last_is = refl;
          after_twepoch = b;
        },
        refl,
      ),
    )
