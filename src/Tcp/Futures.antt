-- ===== src/Tcp/Futures.antt =====
-- app/tcp/json_msg.py and app/tcp/future_manager.py: requests that wait for their response.
-- An `asyncio.Future` is an object that `create` makes: `next` numbers the objects, and `states`
-- holds what became of each. The wait ends by the response or, at a time the environment chooses,
-- by the timeout.
pub mod Keys
pub mod Match
use ygvcs_py.Prelude.{
  ℕ, zero, suc, ◌+◌, ◌-◌, ◌/◌, ◌%◌, Bool, true, false, Option, none, some, List, [], ◌∷◌, ◌++◌, ltb,
  ◌==◌, if◌then◌else◌, Text, Bytes, codes,
}
use ygvcs_py.Tcp.Dict.{get, put, remove}

pub record JsonMsg : Type 0 where
  pub status : Bool
  pub msg : Option Text
  pub other_data : Option Bytes

abbrev pub ok_msg : Option Text → JsonMsg
ok_msg msg = record { status = true; msg = msg; other_data = none }

abbrev pub fail_msg : Option Text → JsonMsg
fail_msg msg = record { status = false; msg = msg; other_data = none }

-- `str(n)`: the digits, lowest first, with the number as fuel; then turned round.
unfoldable pub digits_rev : ℕ → ℕ → Text
digits_rev zero n = (48 + n) ∷ []
digits_rev (suc fuel) n =
    let rest = digits_rev fuel (n / 10) in if ltb n 10 then (48 + n) ∷ [] else (48 + n % 10) ∷ rest

unfoldable pub turn : Text → Text → Text
turn [] acc = acc
turn (c ∷ s) acc = turn s (c ∷ acc)

unfoldable pub decimal : ℕ → Text
unfolding digits_rev turn
decimal n = turn (digits_rev n n) []

-- `f"{imei}{fun}{msg_no}"`
unfoldable pub key : ℕ → Text → Text → Text
unfolding decimal
key imei fun msg_no = decimal imei ++ (fun ++ msg_no)

pub data FutureState : Type 0 where
  waiting : FutureState
  done : JsonMsg → FutureState
  cancelled : FutureState

pub record Futures : Type 0 where
  pub next : ℕ
  pub states : ℕ → FutureState
  pub waiters : List (Text × ℕ)

abbrev pub set_state : (ℕ → FutureState) → ℕ → FutureState → ℕ → FutureState
set_state states i s j = if i == j then s else states j

-- A second request under a key takes the place of the first.
unfoldable pub create : ℕ → Text → Text → Futures → ℕ × Futures
create imei fun msg_no m = (
  m.next,
  record {
    next = suc m.next;
    states = set_state m.states m.next waiting;
    waiters = put m.waiters (key imei fun msg_no) m.next;
  },
)

unfoldable pub delete : ℕ → Text → Text → Futures → Option ℕ × Futures
delete imei fun msg_no m = (
  get m.waiters (key imei fun msg_no),
  record m { waiters = remove m.waiters (key imei fun msg_no) },
)

unfoldable pub get_future : ℕ → Text → Text → Futures → Option ℕ
get_future imei fun msg_no m = get m.waiters (key imei fun msg_no)

abbrev pub is_done : FutureState → Bool
is_done waiting = false
is_done _ = true

unfoldable pub future_complete : ℕ → Text → Text → Bool → Bytes → Futures → Futures
unfolding delete
future_complete imei fun msg_no state msg m =
    let (fut, m') = delete imei fun msg_no m in
    let result : JsonMsg =
      if state
      then record { status = true; msg = none; other_data = some msg }
      else fail_msg none in
    elim fut [
      | none ↦ m'
      | some i ↦
          if is_done (m'.states i)
          then m'
          else record m' { states = set_state m'.states i (done result) }
    ]

abbrev pub timeout_msg : JsonMsg
timeout_msg = fail_msg (some (codes "네트워크 지연, 잠시 후 다시 시도해 주세요!"))

-- `wait(fut)` at the moment at which it returns: with the response if there is one by then, else
-- by the timeout, which cancels the future and leaves its key in the table.
unfoldable pub wait : ℕ → Futures → JsonMsg × Futures
wait i m = elim (m.states i) [
  | done r ↦ (r, m)
  | _ ↦ (timeout_msg, record m { states = set_state m.states i cancelled })
]
