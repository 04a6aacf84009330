-- ===== src/Examples/Requests.antt =====
-- Requests, responses and connections at concrete frames.
use ygvcs_py.Prelude.{
  ℕ, ◌+◌, ◌≡◌, ◌≢◌, refl, true, false, none, some, [], ◌∷◌, ◌++◌, Text, Bytes, codes, arith,
}
use ygvcs_py.Prelude.Raises.{Raises, ok, raised}
use ygvcs_py.Tcp.Futures.{waiting, Futures, create, future_complete, get_future, wait, timeout_msg}
use ygvcs_py.Tcp.Bytes.{bytes_to_int, split_byte, print_hex_string}
use ygvcs_py.Tcp.Futures.Match.{response, wait-future_complete, IsFresh, wait-future_complete_ne}
use ygvcs_py.Tcp.Dict.{get}
use ygvcs_py.Tcp.Channels.{
  Channels, writer_of, fun_of, msg_no, is_online, imei_of, delete_channel_by_imei, bytes, send_msg,
  send_msg_sync, receive_msg,
}
use ygvcs_py.Tcp.Channels.Online.{send_msg-delete_channel, wait-receive_msg}
use ygvcs_py.Tcp.Server.{Server, Handler, read_loop}
use ygvcs_py.Tcp.Server.Loop.{read_loop-chunks}

abbrev no_requests : Futures
no_requests = record { next = 0; states = λ _. waiting; waiters = [] }

no_requests-IsFresh : IsFresh no_requests
unfolding get
no_requests-IsFresh = record { at = λ k j e. absurd (ground (arith, e)) }

wait-future_complete_example :
    let (i, m') = create 5 (codes "B2") (codes "00000009") no_requests in
    let m'' = future_complete 5 (codes "B2") (codes "00000009") true (1 ∷ 2 ∷ []) m' in
    (wait i m'' ≡ (response (1 ∷ 2 ∷ []), m''))
    × (get_future 5 (codes "B2") (codes "00000009") m'' ≡ none)
wait-future_complete_example =
    wait-future_complete 5 (codes "B2") (codes "00000009") (1 ∷ 2 ∷ []) no_requests

wait-future_complete_ne_example :
    let (i, m') = create 5 (codes "B2") (codes "00000009") no_requests in
    let m'' = future_complete 6 (codes "B2") (codes "00000009") true (1 ∷ []) m' in
    ((wait i m'').0 ≡ timeout_msg) × (get_future 5 (codes "B2") (codes "00000009") m'' ≡ some i)
wait-future_complete_ne_example =
    wait-future_complete_ne 5 6 (codes "B2") (codes "B2") (codes "00000009") (codes "00000009") true
      (1 ∷ []) no_requests refl refl refl refl (λ h. ground (arith, h.0)) no_requests-IsFresh

-- A request to vehicle 5 under the number 9, and its response.
abbrev request : Bytes
request = 0x40 ∷ 0xbf ∷ 0x80 ∷ 0x7f ∷ 0 ∷ 0 ∷ 0 ∷ 9 ∷ 0 ∷ 0 ∷ 0 ∷ 5 ∷ 0xb2 ∷ 0 ∷ 1 ∷ 0xff ∷ []

abbrev reply : Bytes
reply = 0x20 ∷ 0xbf ∷ 0x40 ∷ 0x7f ∷ 0 ∷ 0 ∷ 0 ∷ 9 ∷ 0 ∷ 0 ∷ 0 ∷ 5 ∷ 0xb2 ∷ 0 ∷ 1 ∷ 0xff ∷ []

abbrev nobody_online : Channels
nobody_online = record { channels = []; futures = no_requests; sent = [] }

abbrev online : Channels
online = record { channels = (5, 70) ∷ []; futures = no_requests; sent = [] }

abbrev after_request : Raises (ℕ × Channels)
after_request = send_msg_sync (bytes request) online

abbrev waiting_state : Raises (ℕ × Channels) → Channels
waiting_state raised = online
waiting_state (ok r) = r.1

imei_is_5 : imei_of (some request) ≢ 0
unfolding imei_of bytes_to_int split_byte
imei_is_5 h = ground (arith, h)

wait-receive_msg_example :
    (wait 0 (receive_msg reply (waiting_state after_request)).futures).0 ≡ response reply
unfolding send_msg_sync imei_of writer_of bytes_to_int split_byte create fun_of msg_no
    print_hex_string
wait-receive_msg_example =
    wait-receive_msg request reply online (waiting_state after_request) 0 refl refl refl refl
      imei_is_5 refl

send_msg-delete_channel_example :
    let s' = delete_channel_by_imei (some 5) online in
    (is_online 5 s' ≡ false) × (send_msg (bytes request) s' ≡ ok (false, s'))
unfolding imei_of bytes_to_int split_byte
send_msg-delete_channel_example = send_msg-delete_channel 5 request online refl

-- A handler that counts the frames and never raises.
abbrev counting : Handler ℕ
counting writer frame (channels, n) = ((channels, n + 1), false)

abbrev server : Server ℕ
server = record { doing = []; channels = nobody_online; world = 0 }

read_loop-chunks_example :
    read_loop counting 70 (reply ∷ (0x50 ∷ []) ∷ []) [] (none, server)
    ≡ read_loop counting 70 ((reply ++ 0x50 ∷ []) ∷ []) [] (none, server)
read_loop-chunks_example = read_loop-chunks counting 70 reply (0x50 ∷ []) [] [] (none, server)

-- A response of 32 characters to the task command, with the flag FF at its place.
abbrev acknowledgement : Text
acknowledgement = codes "20BF407F0000000900000005B20001FF"
