-- ===== src/Tcp/Channels.antt =====
-- app/tcp/channel_manager.py and app/tcp/tcp_client.py: which connection belongs to which vehicle,
-- and sending over it. A `StreamWriter` is a number; `sent` lists what was written, newest first.
pub mod Online
use ygvcs_py.Prelude.{
  ℕ, zero, suc, ◌+◌, Bool, true, false, not, ◌&&◌, Option, none, some, List, [], ◌∷◌, ◌++◌, ◌==◌,
  if◌then◌else◌, Text, Bytes, codes, text_eq,
}
use ygvcs_py.Prelude.Raises.{Raises, ok, raised, ◌>>=◌}
use ygvcs_py.Tcp.Bytes.{
  hex_string_to_bytes, print_hex_string, bytes_to_int, split_byte, without_spaces,
}
use ygvcs_py.Tcp.Checked.{without_newlines}
use ygvcs_py.Tcp.Futures.{JsonMsg, ok_msg, fail_msg, Futures, create, future_complete, wait}

pub record Channels : Type 0 where
  pub channels : List (ℕ × ℕ)
  pub futures : Futures
  pub sent : List (ℕ × Bytes)

-- `_channels.get(imei)` and `_channels.pop(imei, None)`
unfoldable pub writer_of : List (ℕ × ℕ) → ℕ → Option ℕ
writer_of [] imei = none
writer_of ((i, w) ∷ cs) imei = if i == imei then some w else writer_of cs imei

unfoldable pub without : List (ℕ × ℕ) → ℕ → List (ℕ × ℕ)
without [] imei = []
without ((i, w) ∷ cs) imei = let rest = without cs imei in if i == imei then rest else (i, w) ∷ rest

-- `print_hex_string` of what may be `None`, as the `f`-string of a key shows it.
unfoldable pub shown : Option Bytes → Text
shown none = codes "None"
shown (some b) = print_hex_string b

unfoldable pub msg_no : Option Bytes → Text
unfolding shown
msg_no msg = shown (split_byte msg 4 8)

unfoldable pub imei_of : Option Bytes → ℕ
imei_of msg = bytes_to_int (split_byte msg 8 12) 4

unfoldable pub fun_of : Option Bytes → Text
unfolding shown
fun_of msg = shown (split_byte msg 12 13)

unfoldable pub is_online : ℕ → Channels → Bool
unfolding writer_of
is_online imei s = elim (writer_of s.channels imei) [ none ↦ false | some _ ↦ true ]

-- The first connection of a vehicle stays until it is deleted.
unfoldable pub save_channel : ℕ → Bytes → Channels → Channels
unfolding is_online
save_channel writer msg s =
    let imei = imei_of (some msg) in
    if not (imei == 0) && not (is_online imei s)
    then record s { channels = (imei, writer) ∷ s.channels }
    else s

unfoldable pub delete_channel_by_imei : Option ℕ → Channels → Channels
unfolding without
delete_channel_by_imei none s = s
delete_channel_by_imei (some imei) s = record s { channels = without s.channels imei }

-- A message is bytes, or a hex text with spaces and newlines.
pub data Message : Type 0 where
  text : Text → Message
  bytes : Bytes → Message

unfoldable pub message_bytes : Message → Raises (Option Bytes)
message_bytes (text t) = hex_string_to_bytes (some (without_newlines (without_spaces t)))
message_bytes (bytes b) = ok (some b)

-- `writer.write(None)` raises, if ever a connection is kept under the number 0.
unfoldable pub write_to : Option ℕ → Option Bytes → Channels → Raises (Bool × Channels)
write_to none msg s = ok (false, s)
write_to (some w) none s = raised
write_to (some w) (some b) s = ok (true, record s { sent = (w, b) ∷ s.sent })

unfoldable pub send_msg : Message → Channels → Raises (Bool × Channels)
unfolding message_bytes write_to
send_msg m s = do msg ← message_bytes m; write_to (writer_of s.channels (imei_of msg)) msg s

-- The future is made before the write, and also where there is no connection.
unfoldable pub send_msg_sync : Message → Channels → Raises (ℕ × Channels)
unfolding message_bytes write_to
send_msg_sync m s = do
  msg ← message_bytes m
  let (fut, futures) = create (imei_of msg) (fun_of msg) (msg_no msg) s.futures
  r ← write_to (writer_of s.channels (imei_of msg)) msg (record s { futures = futures })
  ok (fut, r.1)

unfoldable pub receive_msg : Bytes → Channels → Channels
receive_msg msg s =
    let imei = imei_of (some msg) in
    let fun = fun_of (some msg) in
    if not (imei == 0) && not (text_eq fun (codes "00"))
    then record s { futures = future_complete imei fun (msg_no (some msg)) true msg s.futures }
    else s

-- `send_tcp_msg`: `world` is what the other tasks do to the shared state while this one waits.
abbrev pub hex_of_data : JsonMsg → JsonMsg
hex_of_data m = record m {
  msg = elim m.other_data [ none ↦ none | some b ↦ some (print_hex_string b) ];
}

unfoldable pub send_tcp_msg : Text → (Channels → Channels) → Channels → JsonMsg × Channels
unfolding send_msg_sync
send_tcp_msg request world s = elim (send_msg_sync (text request) s) [
  | raised ↦ (fail_msg none, s)
  | ok (fut, s') ↦
      let s'' = world s' in
      let (msg, futures) = wait fut s''.futures in
      (if msg.status then hex_of_data msg else msg, record s'' { futures = futures })
]

unfoldable pub send_task_queen : Text → Channels → Raises (JsonMsg × Channels)
unfolding send_msg
send_task_queen request s = do
  r ← send_msg (text request) s
  ok (if r.0 then ok_msg none else fail_msg none, r.1)
