-- ===== src/Tcp/Crc/Detect.antt =====
-- A message that differs from another in one bit has another CRC.
use ygvcs_py.Prelude.{
  ℕ, zero, suc, ◌*◌, ◌/◌, ◌%◌, ◌^◌, ◌<◌, ◌≡◌, ◌≢◌, refl, ap, sym, ◌∙◌, List, [], ◌∷◌, ◌++◌, Bool,
  true, not, ◌&&◌, xor, Bytes, arith, ◌==◌, bit_xor, ltb, if◌then◌else◌,
}
use ygvcs_py.Prelude.Bits.{holds_under, holds_under-at}
use ygvcs_py.Tcp.Crc.{
  initial, polynomial, crc_step, bit_at, crc_rounds, crc_from, crc_16_ccitt_false,
}

-- Adding the polynomial twice changes nothing, and it turns the lowest bit over.
abbrev xor_fact : ℕ → Bool
xor_fact x =
    ltb (bit_xor (x * 2) polynomial) (2 ^ 16)
    && (bit_xor (bit_xor (x * 2) polynomial) polynomial == x * 2)
    && (bit_xor (x * 2) polynomial % 2 == 1)

xor_table : holds_under xor_fact (2 ^ 15) ≡ true
unfolding holds_under
xor_table = refl

xor_fact_at : (x : ℕ) → x < 2 ^ 15 → xor_fact x ≡ true
xor_fact_at x h = holds_under-at xor_fact (2 ^ 15) x h xor_table

feedback : ℕ → ℕ
feedback x = bit_xor (x * 2) polynomial

feedback_odd : (x : ℕ) → x < 2 ^ 15 → (feedback x % 2 ≡ 1) × (feedback x < 2 ^ 16)
unfolding feedback
feedback_odd x h = ground (arith, xor_fact_at x h)

feedback_back : (x : ℕ) → x < 2 ^ 15 → bit_xor (feedback x) polynomial ≡ x * 2
unfolding feedback
feedback_back x h = ground (arith, xor_fact_at x h)

feedback_inj : (x y : ℕ) → x < 2 ^ 15 → y < 2 ^ 15 → feedback x ≡ feedback y → x ≡ y
feedback_inj x y p q e =
    omega (arith, feedback_back x p, feedback_back y q, ap (λ (t : ℕ). bit_xor t polynomial) e)

-- A round by the lowest 15 bits of the register.
crc_step_lem :
    (crc : ℕ) (bit : Bool)
    → crc_step crc bit
      ≡ (if xor (crc / 2 ^ 15 % 2 == 1) bit then feedback (crc % 2 ^ 15) else crc % 2 ^ 15 * 2)
unfolding crc_step feedback
crc_step_lem crc bit = let e : crc * 2 % 2 ^ 16 ≡ crc % 2 ^ 15 * 2 = omega arith in rw e

crc_step-lt : (crc : ℕ) (bit : Bool) → crc_step crc bit < 2 ^ 16
crc_step-lt crc bit =
    ground (arith, crc_step_lem crc bit, feedback_odd (crc % 2 ^ 15) (omega arith))

-- Two registers that differ still differ after a round with the same bit.
crc_step_inj :
    (a b : ℕ) (bit : Bool) → a < 2 ^ 16 → b < 2 ^ 16 → crc_step a bit ≡ crc_step b bit → a ≡ b
crc_step_inj a b bit p q e = ground (
  arith,
  crc_step_lem a bit,
  crc_step_lem b bit,
  feedback_odd (a % 2 ^ 15) (omega arith),
  feedback_odd (b % 2 ^ 15) (omega arith),
  feedback_inj (a % 2 ^ 15) (b % 2 ^ 15) (omega arith) (omega arith),
)

-- One register goes two ways on the two bits.
crc_step_bit : (a : ℕ) (bit : Bool) → crc_step a bit ≢ crc_step a (not bit)
crc_step_bit a bit e =
    ground
      (arith, crc_step_lem a bit, crc_step_lem a (not bit), feedback_odd (a % 2 ^ 15) (omega arith))

-- The bits of a message in the order in which the code feeds them.
abbrev byte_bits : ℕ → ℕ → List Bool
byte_bits zero b = []
byte_bits (suc n) b = bit_at b n ∷ byte_bits n b

abbrev pub message_bits : Bytes → List Bool
message_bits [] = []
message_bits (b ∷ bs) = byte_bits 8 b ++ message_bits bs

crc_bits : ℕ → List Bool → ℕ
crc_bits crc [] = crc
crc_bits crc (x ∷ xs) = crc_bits (crc_step crc x) xs

crc_bits-append :
    (crc : ℕ) (xs ys : List Bool) → crc_bits crc (xs ++ ys) ≡ crc_bits (crc_bits crc xs) ys
unfolding crc_bits
crc_bits-append crc [] ys = refl
crc_bits-append crc (x ∷ xs) ys = crc_bits-append (crc_step crc x) xs ys

crc_bits-lt : (crc : ℕ) (xs : List Bool) → crc < 2 ^ 16 → crc_bits crc xs < 2 ^ 16
unfolding crc_bits
crc_bits-lt crc [] h = h
crc_bits-lt crc (x ∷ xs) h = crc_bits-lt (crc_step crc x) xs (crc_step-lt crc x)

crc_bits_inj :
    (a b : ℕ) (xs : List Bool) → a < 2 ^ 16 → b < 2 ^ 16 → crc_bits a xs ≡ crc_bits b xs → a ≡ b
unfolding crc_bits
crc_bits_inj a b [] p q e = e
crc_bits_inj a b (x ∷ xs) p q e =
    crc_step_inj a b x p q
      (crc_bits_inj (crc_step a x) (crc_step b x) xs (crc_step-lt a x) (crc_step-lt b x) e)

crc_rounds-eq-crc_bits : (n b crc : ℕ) → crc_rounds n b crc ≡ crc_bits crc (byte_bits n b)
unfolding crc_rounds crc_bits
crc_rounds-eq-crc_bits zero b crc = refl
crc_rounds-eq-crc_bits (suc n) b crc = crc_rounds-eq-crc_bits n b (crc_step crc (bit_at b n))

crc_from-eq-crc_bits : (crc : ℕ) (bs : Bytes) → crc_from crc bs ≡ crc_bits crc (message_bits bs)
unfolding crc_from
crc_from-eq-crc_bits crc [] = unfold crc_bits in refl
crc_from-eq-crc_bits crc (b ∷ bs) =
    crc_from-eq-crc_bits (crc_rounds 8 b crc) bs
    ∙ ap (λ t. crc_bits t (message_bits bs)) (crc_rounds-eq-crc_bits 8 b crc)
    ∙ sym (crc_bits-append crc (byte_bits 8 b) (message_bits bs))

crc_16-eq-crc_bits : (bs : Bytes) → crc_16_ccitt_false bs ≡ crc_bits initial (message_bits bs)
unfolding crc_16_ccitt_false
crc_16-eq-crc_bits bs =
    omega
      (arith, crc_from-eq-crc_bits initial bs, crc_bits-lt initial (message_bits bs) (omega arith))

flip_differs :
    (pre post : List Bool) (x : Bool)
    → crc_bits initial (pre ++ x ∷ post) ≢ crc_bits initial (pre ++ not x ∷ post)
flip_differs pre post x e = crc_step_bit s x (
    crc_bits_inj (crc_step s x) (crc_step s (not x)) post (crc_step-lt s x) (crc_step-lt s (not x))
      (unfold crc_bits in
        sym (crc_bits-append initial pre (x ∷ post))
        ∙ e
        ∙ crc_bits-append initial pre (not x ∷ post)))
  where
    s : ℕ
    s = crc_bits initial pre

-- Two messages whose bits agree but for one place have different CRCs.
pub crc_16_detects_flip :
    (bs cs : Bytes) (pre post : List Bool) (x : Bool)
    → message_bits bs ≡ pre ++ x ∷ post
    → message_bits cs ≡ pre ++ not x ∷ post
    → crc_16_ccitt_false bs ≢ crc_16_ccitt_false cs
crc_16_detects_flip bs cs pre post x p q e = flip_differs pre post x (
    ap (crc_bits initial) (sym p)
    ∙ sym (crc_16-eq-crc_bits bs)
    ∙ e
    ∙ crc_16-eq-crc_bits cs
    ∙ ap (crc_bits initial) q)
