-- ===== src/Tcp/Futures/Match.antt =====
-- A response reaches the request that it answers, and no other.
use ygvcs_py.Prelude.{
  ℕ, ◌<◌, ◌≡◌, ◌≢◌, refl, sym, ◌∙◌, Bool, true, false, Option, none, some, Text, Bytes, length,
  arith, if◌then◌else◌, text_eq, text_eq_refl, ==_refl, Option-cases, inl, inr,
}
use mathlib.Core.Path.{subst}
use ygvcs_py.Tcp.Dict.{get, put, remove, get-put, get-put_self, get-remove, text_eq_of_ne}
use ygvcs_py.Tcp.Futures.{
  JsonMsg, Futures, waiting, done, key, create, get_future, future_complete, wait, set_state,
  timeout_msg,
}
use ygvcs_py.Tcp.Futures.Keys.{key_inj}

abbrev pub response : Bytes → JsonMsg
response msg = record { status = true; msg = none; other_data = some msg }

abbrev result : Bool → Bytes → JsonMsg
result state msg =
    if state
    then record { status = true; msg = none; other_data = some msg }
    else record { status = false; msg = none; other_data = none }

-- What `future_complete` does on a request that waits.
future_complete_waiting :
    (imei : ℕ) (fun msg_no : Text) (state : Bool) (msg : Bytes) (m : Futures) (i : ℕ)
    → get m.waiters (key imei fun msg_no) ≡ some i
    → m.states i ≡ waiting
    → future_complete imei fun msg_no state msg m ≡ record m {
      states = set_state m.states i (done (result state msg));
      waiters = remove m.waiters (key imei fun msg_no);
    }
unfolding future_complete
future_complete_waiting imei fun msg_no state msg m i found w =
    rw (found, future_complete) (rw w refl)

-- The request that was just made is answered with the response's bytes, its entry is gone after
-- that, and the wait returns the response.
pub wait-future_complete :
    (imei : ℕ) (fun msg_no : Text) (msg : Bytes) (m : Futures)
    → let (i, m') = create imei fun msg_no m in
      let m'' = future_complete imei fun msg_no true msg m' in
      (wait i m'' ≡ (response msg, m'')) × (get_future imei fun msg_no m'' ≡ none)
unfolding create
wait-future_complete imei fun msg_no msg m =
    rw
      (future_complete_waiting imei fun msg_no true msg (create imei fun msg_no m).1 m.next
        (get-put_self m.waiters (key imei fun msg_no) m.next) (rw (==_refl m.next) refl))
      (
        unfold wait in rw (==_refl m.next, wait) refl,
        unfold get_future in
            rw
              (get-remove (put m.waiters (key imei fun msg_no) m.next) (key imei fun msg_no)
                (key imei fun msg_no))
              (rw (text_eq_refl (key imei fun msg_no)) refl),
      )

-- Every future in the table was made by `create`.
pub record IsFresh (m : Futures) : Type 0 where
  pub at : (k : Text) (j : ℕ) → get m.waiters k ≡ some j → j < m.next

pub create-IsFresh :
    (imei : ℕ) (fun msg_no : Text) (m : Futures) → IsFresh m → IsFresh (create imei fun msg_no m).1
unfolding create
create-IsFresh imei fun msg_no m h = record {
  at = λ k j e. ground (arith, get-put m.waiters (key imei fun msg_no) k m.next, h.at k j);
}

pub future_complete-IsFresh :
    (imei : ℕ) (fun msg_no : Text) (state : Bool) (msg : Bytes) (m : Futures)
    → IsFresh m
    → IsFresh (future_complete imei fun msg_no state msg m)
unfolding future_complete
future_complete-IsFresh imei fun msg_no state msg m h = record {
  at = λ k j e. ground (arith, get-remove m.waiters (key imei fun msg_no) k, h.at k j);
}

future_complete-states_ne :
    (imei : ℕ) (fun msg_no : Text) (state : Bool) (msg : Bytes) (m : Futures) (i : ℕ)
    → ((j : ℕ) → get m.waiters (key imei fun msg_no) ≡ some j → j ≢ i)
    → (future_complete imei fun msg_no state msg m).states i ≡ m.states i
unfolding future_complete
future_complete-states_ne imei fun msg_no state msg m i ne =
    elim (Option-cases (get m.waiters (key imei fun msg_no))) [
      | inl e ↦ rw (e, future_complete) refl
      | inr (j, e) ↦ rw (e, future_complete) (ground (arith, ne j e))
    ]

wait_waiting : (i : ℕ) (m : Futures) → m.states i ≡ waiting → (wait i m).0 ≡ timeout_msg
unfolding wait
wait_waiting i m e = rw (e, wait) refl

-- A response to another request, by its vehicle, function code or message number, leaves the
-- request waiting, and the wait ends by the timeout.
pub wait-future_complete_ne :
    (imei imei' : ℕ) (fun fun' msg_no msg_no' : Text) (state : Bool) (msg : Bytes) (m : Futures)
    → length fun ≡ 2
    → length fun' ≡ 2
    → length msg_no ≡ 8
    → length msg_no' ≡ 8
    → ¬ ((imei ≡ imei') × (fun ≡ fun') × (msg_no ≡ msg_no'))
    → IsFresh m
    → let (i, m') = create imei fun msg_no m in
      let m'' = future_complete imei' fun' msg_no' state msg m' in
      ((wait i m'').0 ≡ timeout_msg) × (get_future imei fun msg_no m'' ≡ some i)
unfolding create get_future future_complete
wait-future_complete_ne imei imei' fun fun' msg_no msg_no' state msg m a b c d ne h = (
  wait_waiting m.next _ (
      future_complete-states_ne imei' fun' msg_no' state msg (create imei fun msg_no m).1 m.next
        younger
      ∙ started),
  ground (
    arith,
    get-remove (put m.waiters (key imei fun msg_no) m.next) (key imei' fun' msg_no')
        (key imei fun msg_no),
    get-put_self m.waiters (key imei fun msg_no) m.next,
    other (key imei' fun' msg_no') (key imei fun msg_no) (λ e. differ (sym e)),
  ),
)
  where
    differ : key imei fun msg_no ≢ key imei' fun' msg_no'
    differ e = ne (key_inj imei imei' fun fun' msg_no msg_no' a b c d e)

    other : (s t : Text) → s ≢ t → text_eq s t ≡ false
    other = text_eq_of_ne

    started : (create imei fun msg_no m).1.states m.next ≡ waiting
    started = rw (==_refl m.next) refl

    younger :
        (j : ℕ)
        → get (put m.waiters (key imei fun msg_no) m.next) (key imei' fun' msg_no') ≡ some j
        → j ≢ m.next
    younger j e =
        let e' =
          subst (λ (o : Option ℕ). o ≡ some j)
            (get-put m.waiters (key imei fun msg_no) (key imei' fun' msg_no') m.next) e in
        omega (
          arith,
          h.at (key imei' fun' msg_no') j
              (rw (other (key imei fun msg_no) (key imei' fun' msg_no') differ) at e'),
        )
