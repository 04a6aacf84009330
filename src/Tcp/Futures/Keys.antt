-- ===== src/Tcp/Futures/Keys.antt =====
-- Different requests have different keys.
use ygvcs_py.Prelude.{
  ℕ, zero, suc, ◌+◌, ◌-◌, ◌*◌, ◌/◌, ◌≤◌, ◌≡◌, refl, ap, sym, ◌∙◌, [], ◌∷◌, ◌++◌, Text, length,
  arith, length-append, take, drop, take-append, drop-append,
}
use ygvcs_py.Tcp.Futures.{digits_rev, turn, decimal, key}

value : Text → ℕ
value [] = 0
value (c ∷ s) = (c - 48) + 10 * value s

value-digits_rev : (fuel n : ℕ) → n ≤ fuel → value (digits_rev fuel n) ≡ n
unfolding digits_rev value
value-digits_rev zero n h = omega arith
value-digits_rev (suc fuel) n h = ground (arith, value-digits_rev fuel (n / 10))

turn-turn : (s acc : Text) → turn (turn s acc) [] ≡ turn acc s
unfolding turn
turn-turn [] acc = refl
turn-turn (c ∷ s) acc = turn-turn s (c ∷ acc)

pub decimal_inj : (m n : ℕ) → decimal m ≡ decimal n → m ≡ n
unfolding decimal
decimal_inj m n e =
    sym (value-digits_rev m m (omega arith))
    ∙ ap value (
        sym (turn-turn (digits_rev m m) []) ∙ ap (λ t. turn t []) e ∙ turn-turn (digits_rev n n) [])
    ∙ value-digits_rev n n (omega arith)

-- Texts with tails of one length agree part by part.
suffix_inj : (s t u v : Text) → length u ≡ length v → s ++ u ≡ t ++ v → (s ≡ t) × (u ≡ v)
suffix_inj s t u v len e =
    let both : length s ≡ length t =
      omega (arith, ap (λ (x : Text). length x) e, length-append s u, length-append t v) in
    (
      sym (take-append s u (length s) refl)
          ∙ ap (take (length s)) e
          ∙ take-append t v (length s) both,
      sym (drop-append s u (length s) refl)
          ∙ ap (drop (length s)) e
          ∙ drop-append t v (length s) both,
    )

-- The keys of two requests agree only if the vehicle, the function code and the message number
-- agree, given function codes of two characters and message numbers of eight.
pub key_inj :
    (imei imei' : ℕ) (fun fun' msg_no msg_no' : Text)
    → length fun ≡ 2
    → length fun' ≡ 2
    → length msg_no ≡ 8
    → length msg_no' ≡ 8
    → key imei fun msg_no ≡ key imei' fun' msg_no'
    → (imei ≡ imei') × (fun ≡ fun') × (msg_no ≡ msg_no')
unfolding key
key_inj imei imei' fun fun' msg_no msg_no' a b c d e =
    let (p, q) =
      suffix_inj (decimal imei) (decimal imei') (fun ++ msg_no) (fun' ++ msg_no')
        (omega (arith, length-append fun msg_no, length-append fun' msg_no')) e in
    let (r, s) = suffix_inj fun fun' msg_no msg_no' (omega arith) q in
    (decimal_inj imei imei' p, r, s)
