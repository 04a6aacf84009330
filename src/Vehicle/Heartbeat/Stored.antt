-- ===== src/Vehicle/Heartbeat/Stored.antt =====
-- The table that a heartbeat leaves for the other services.
use ygvcs_py.Prelude.{
  ℕ, ◌≡◌, ◌≤◌, ◌<◌, refl, ap, ◌∙◌, ◌==◌, inl, inr, Bool, some, List, ◌∷◌, String, Text, Bytes, leb,
  length, ==_refl, Bool-cases, leb→le, arith, true, false,
}
use ygvcs_py.Prelude.Raises.{Raises, ok, raised}
use ygvcs_py.Tcp.Futures.{JsonMsg}
use ygvcs_py.Vehicle.Memory.{MemoryTable, parse_memory_table}
use ygvcs_py.Vehicle.Frames.{WayPoint, should_dispatch}
use ygvcs_py.Vehicle.Heartbeat.{
  Plant, table_of, Circumstances, register, report_all, hand_on, after_reply, after_parse,
  process_heartbeat, is_heartbeat, message_handler,
}

register-tables :
    {W : Type 0} (show : ℕ → String) (imei : ℕ) (s : Plant W)
    → (register show imei s).tables ≡ s.tables
unfolding register
register-tables show imei s = elim (Bool-cases (imei == 0)) [
  | inl e ↦ rw e refl
  | inr e ↦ rw e refl
]

report_all-tables :
    {W : Type 0} (frame : Bytes) (unlocked : Bool) (s : Plant W)
    → (report_all frame unlocked s).tables ≡ s.tables
unfolding report_all
report_all-tables frame unlocked s = refl

-- What becomes of a frame.
pub data Handled {W : Type 0} (frame : Bytes) (s : Plant W) : Plant W → Type 0 where
  too_short : length frame ≤ 12 → Handled frame s s
  no_heartbeat : is_heartbeat frame ≡ false → Handled frame s s
  unreadable : parse_memory_table frame ≡ raised → Handled frame s s
  stored :
      {s' : Plant W} (t : MemoryTable)
      → 12 < length frame
      → is_heartbeat frame ≡ true
      → parse_memory_table frame ≡ ok t
      → table_of t.device_imei s'.tables ≡ some t
      → Handled frame s s'

module _ {W : Type 0} (send : Text → W → JsonMsg × W) (queue : Text → W → Raises W)
    (to_list : String → Raises (List WayPoint)) (show : ℕ → String) where
  hand_on-tables :
      (c : Circumstances) (table : MemoryTable) (s : Plant W)
      → (hand_on send queue to_list show c table s).tables ≡ s.tables
  unfolding hand_on
  hand_on-tables c table s = elim (Bool-cases (should_dispatch table)) [
    | inl e ↦ rw e refl
    | inr e ↦ rw e refl
  ]

  after_reply-tables :
      (c : Circumstances) (frame : Bytes) (table : MemoryTable) (s : Plant W) (r : Raises W)
      → (after_reply send queue to_list show c frame table s r).tables ≡ s.tables
  after_reply-tables c frame table s raised = refl
  after_reply-tables c frame table s (ok w) =
      hand_on-tables c table _
      ∙ report_all-tables frame c.unlocked _
      ∙ register-tables show table.device_imei _

  -- A frame of more than twelve bytes that is a heartbeat and whose table can be read leaves that
  -- table under the vehicle's number, whatever becomes of the answer, the reports and the next task.
  -- Any other frame changes nothing at all.
  pub message_handler-table :
      (c : Circumstances) (frame : Bytes) (s : Plant W)
      → Handled frame s (message_handler send queue to_list show c frame s)
  unfolding message_handler process_heartbeat table_of
  message_handler-table c frame s = elim (Bool-cases (leb (length frame) 12)) [
    | inl short ↦ rw short (too_short (leb→le (length frame) 12 short))
    | inr long ↦ elim (Bool-cases (is_heartbeat frame)) [
      | inr other ↦ rw (long, other) (no_heartbeat other)
      | inl beat ↦ rw (long, beat) (go (parse_memory_table frame) (ground (arith, long)) beat refl)
    ]
  ]
    where
      go :
          (m : Raises MemoryTable)
          → 12 < length frame
          → is_heartbeat frame ≡ true
          → parse_memory_table frame ≡ m
          → Handled frame s (after_parse send queue to_list show c frame s m)
      go raised long beat e = unreadable e
      go (ok t) long beat e = stored t long beat e (
          ap (table_of t.device_imei)
            (after_reply-tables c frame t (record s { tables = (t.device_imei, t) ∷ s.tables }) _)
          ∙ rw (==_refl t.device_imei) refl)
