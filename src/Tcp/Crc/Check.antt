-- ===== src/Tcp/Crc/Check.antt =====
-- The CRC stays in 16 bits, both copies of the loop agree, and a text with its CRC passes.
use ygvcs_py.Prelude.{
  ℕ, zero, suc, ◌+◌, ◌-◌, ◌/◌, ◌%◌, ◌^◌, ◌<◌, ◌≤◌, ◌≡◌, refl, some, [], ◌∷◌, ◌++◌, Bytes, length,
  arith, true, drop, take, slice, length-append, drop-append, take-append, get_elem?, ==_refl,
}
use native.Mathlib.Numerals.{add-one}
use ygvcs_py.Prelude.Raises.{ok}
use ygvcs_py.Tcp.Crc.{
  initial, crc_rounds, crc_from, crc_16_ccitt_false, calc_crc_loop, calc_crc, same_crc_bytes,
  is_pass_crc,
}

pub crc_16-lt : (bs : Bytes) → crc_16_ccitt_false bs < 2 ^ 16
unfolding crc_16_ccitt_false
crc_16-lt bs = omega arith

crc_from-append : (crc : ℕ) (a b : Bytes) → crc_from crc (a ++ b) ≡ crc_from (crc_from crc a) b
unfolding crc_from
crc_from-append crc [] b = refl
crc_from-append crc (x ∷ a) b = crc_from-append (crc_rounds 8 x crc) a b

drop-eq-cons :
    (buf : Bytes) (i : ℕ)
    → i < length buf
    → (b : ℕ) × (get_elem? buf i ≡ some b) × (drop i buf ≡ b ∷ drop (suc i) buf)
drop-eq-cons [] i h = absurd (omega arith)
drop-eq-cons (x ∷ buf) zero h = (x, refl, refl)
drop-eq-cons (x ∷ buf) (suc i) h = drop-eq-cons buf i (omega arith)

-- The loop by index is the loop over the bytes of the slice.
calc_crc_loop-eq-crc_from :
    (n : ℕ) (buf : Bytes) (i crc : ℕ)
    → i + n ≤ length buf
    → calc_crc_loop n buf i crc ≡ ok (crc_from crc (take n (drop i buf)))
unfolding calc_crc_loop crc_from
calc_crc_loop-eq-crc_from zero buf i crc h = refl
calc_crc_loop-eq-crc_from (suc n) buf i crc h =
    let (b, read, split) = drop-eq-cons buf i (omega arith) in
    rw (read, calc_crc_loop)
      (rw split (
        rw (add-one i)
          (calc_crc_loop-eq-crc_from n buf (suc i) (crc_rounds 8 b crc) (omega arith))))

-- `_calc_crc` computes what `crc_16_ccitt_false` computes on the slice of the buffer.
pub calc_crc-eq-crc_16 :
    (buf : Bytes) (offset n : ℕ)
    → offset + n ≤ length buf
    → calc_crc buf offset n ≡ ok (crc_16_ccitt_false (slice buf offset (offset + n)))
unfolding calc_crc crc_16_ccitt_false
calc_crc-eq-crc_16 buf offset n h = rw (calc_crc_loop-eq-crc_from n buf offset initial h) (rw cut)
  where
    cut : offset + n - offset ≡ n
    cut = omega arith

same_crc_bytes_own :
    (crc : ℕ) → same_crc_bytes crc ((crc / 2 ^ 8 % 256) ∷ (crc % 256) ∷ []) ≡ ok true
unfolding same_crc_bytes
same_crc_bytes_own crc = simp ==_refl

-- A text followed by its CRC, high byte first, passes the check.
pub is_pass_crc_own :
    (bs : Bytes)
    → let crc = crc_16_ccitt_false bs in
      is_pass_crc (bs ++ (crc / 2 ^ 8 % 256) ∷ (crc % 256) ∷ []) 2 ≡ ok true
unfolding is_pass_crc
is_pass_crc_own bs =
    let crc = crc_16_ccitt_false bs in
    let tail : Bytes = (crc / 2 ^ 8 % 256) ∷ (crc % 256) ∷ [] in
    let len : length (bs ++ tail) ≡ length bs + 2 = length-append bs tail in
    rw (calc_crc-eq-crc_16 (bs ++ tail) 0 (length (bs ++ tail) - 2) (omega arith)) (
      rw (take-append bs tail (0 + (length (bs ++ tail) - 2) - 0) (omega (arith, len))) (
        rw (drop-append bs tail (length (bs ++ tail) - 2) (omega (arith, len)))
          (same_crc_bytes_own crc)))
