-- ===== src/UserTasks/Sending/Settled.antt =====
-- What a sending operation leaves behind: the tables as they were, or its one write after every
-- frame was carried out.
use ygvcs_py.Prelude.{◌≡◌, refl, ◌⊎◌, inl, inr, Option, none, some, List, [], ◌∷◌, Text, arith}
use ygvcs_py.Prelude.Raises.{Raises, ok, raised}
use ygvcs_py.Tcp.Futures.{JsonMsg}
use ygvcs_py.Store.Tables.{Db}
use ygvcs_py.Tasks.Reply.{JsonResult}
use ygvcs_py.UserTasks.Attempt.{Attempt, goes_on, returns, raises}
use ygvcs_py.UserTasks.Guards.{Failure, answer_of, next_frames, send_frames}
use ygvcs_py.UserTasks.Orders.{Order}
use ygvcs_py.UserTasks.Sending.{Sender, stored, settle, carry_out}

-- Every frame, in its turn, was answered by a response that says that it was carried out.
pub data CarriedOut {W : Type 0} (send : Text → W → JsonMsg × W) : List Text → W → W → Type 0 where
  none_left : {w : W} → CarriedOut send [] w w
  one_more :
      {f : Text} {fs : List Text} {w w' : W}
      → answer_of (send f w).0 ≡ ok none
      → CarriedOut send fs (send f w).1 w'
      → CarriedOut send (f ∷ fs) w w'

send_frames-CarriedOut :
    {W : Type 0} (send : Text → W → JsonMsg × W) (fs : List Text) (w : W)
    → (send_frames send fs w).0 ≡ ok none
    → CarriedOut send fs w (send_frames send fs w).1
unfolding send_frames
send_frames-CarriedOut send [] w h = none_left
send_frames-CarriedOut {W = W} send (f ∷ fs) w h =
    go (answer_of (send f w).0) refl h (send_frames-CarriedOut send fs (send f w).1)
  where
    rest : Raises (Option Failure) × W
    rest = send_frames send fs (send f w).1

    go :
        (a : Raises (Option Failure))
        → answer_of (send f w).0 ≡ a
        → (next_frames send a (send f w).1 rest).0 ≡ ok none
        → (rest.0 ≡ ok none → CarriedOut send fs (send f w).1 rest.1)
        → CarriedOut send (f ∷ fs) w (next_frames send a (send f w).1 rest).1
    go raised e k later = absurd (ground (arith, k))
    go (ok (some x)) e k later = absurd (ground (arith, k))
    go (ok none) e k later = one_more e (later k)

-- The outcome of a sending operation, by its order.
pub record Settled {W : Type 0} (send : Text → W → JsonMsg × W) (o : Order) (s s' : Sender W)
    (r : Raises JsonResult) : Type 0 where
  pub carried_out : CarriedOut send o.frames s.world s'.world
  pub written : o.store ≡ ok s'.db
  pub answered : r ≡ ok o.answer

pub carry_out-Settled :
    {W : Type 0} (send : Text → W → JsonMsg × W) (a : Attempt Order) (s : Sender W)
    → let (r, s') = carry_out send a s in
      (s'.db ≡ s.db) ⊎ ((o : Order) × (a ≡ goes_on o) × Settled send o s s' r)
unfolding carry_out
carry_out-Settled send raises s = inl refl
carry_out-Settled send (returns j) s = inl refl
carry_out-Settled {W = W} send (goes_on o) s = answers (send_frames send o.frames s.world).0 refl
  where
    s1 : Sender W
    s1 = record s { world = (send_frames send o.frames s.world).1 }

    writes :
        (st : Raises Db)
        → o.store ≡ st
        → CarriedOut send o.frames s.world s1.world
        → let (r, s') = stored send o s1 st in
          (s'.db ≡ s.db) ⊎ ((p : Order) × (goes_on o ≡ goes_on p) × Settled send p s s' r)
    writes raised e c = inl refl
    writes (ok db) e c = inr (o, refl, record { carried_out = c; written = e; answered = refl })

    answers :
        (r : Raises (Option Failure))
        → (send_frames send o.frames s.world).0 ≡ r
        → let (r, s') = settle send o s1 r in
          (s'.db ≡ s.db) ⊎ ((p : Order) × (goes_on o ≡ goes_on p) × Settled send p s s' r)
    answers raised e = inl refl
    answers (ok (some x)) e = inl refl
    answers (ok none) e = writes o.store refl (send_frames-CarriedOut send o.frames s.world e)
