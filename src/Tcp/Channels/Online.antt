-- ===== src/Tcp/Channels/Online.antt =====
-- Connections and requests over them.
use ygvcs_py.Prelude.{
  ℕ, ◌≡◌, ◌≢◌, refl, ap, true, false, none, some, List, [], ◌∷◌, Bytes, codes, arith, ◌==◌, text_eq,
  ==_refl,
}
use ygvcs_py.Prelude.Raises.{ok}
use ygvcs_py.Tcp.Futures.{JsonMsg, Futures, create, wait}
use ygvcs_py.Tcp.Futures.Match.{response, wait-future_complete}
use ygvcs_py.Tcp.Channels.{
  Channels, writer_of, without, msg_no, imei_of, fun_of, is_online, save_channel,
  delete_channel_by_imei, bytes, send_msg, send_msg_sync, receive_msg,
}

writer_of-without : (cs : List (ℕ × ℕ)) (i : ℕ) → writer_of (without cs i) i ≡ none
unfolding writer_of without
writer_of-without [] i = refl
writer_of-without ((j, w) ∷ cs) i = ground (arith, writer_of-without cs i)

save_channel_new :
    (v : ℕ) (frame : Bytes) (s : Channels)
    → imei_of (some frame) ≢ 0
    → is_online (imei_of (some frame)) s ≡ false
    → save_channel v frame s ≡ record s { channels = (imei_of (some frame), v) ∷ s.channels }
unfolding save_channel
save_channel_new v frame s h off = rw off (ground arith)

save_channel_online :
    (w : ℕ) (frame : Bytes) (s : Channels)
    → is_online (imei_of (some frame)) s ≡ true
    → save_channel w frame s ≡ s
unfolding save_channel
save_channel_online w frame s on = rw on (ground arith)

-- Of two connections that a vehicle opens one behind the other, the first gets its messages.
pub send_msg-save_channel :
    (v w : ℕ) (first second msg : Bytes) (s : Channels)
    → imei_of (some first) ≢ 0
    → imei_of (some second) ≡ imei_of (some first)
    → imei_of (some msg) ≡ imei_of (some first)
    → is_online (imei_of (some first)) s ≡ false
    → let s' = save_channel w second (save_channel v first s) in
      send_msg (bytes msg) s' ≡ ok (true, record s' { sent = (v, msg) ∷ s.sent })
unfolding send_msg
send_msg-save_channel v w first second msg s h e e' off = rw (save_channel_new v first s h off) (
    rw
      (save_channel_online w second (record s { channels = (imei_of (some first), v) ∷ s.channels })
        (rw e (unfold is_online in rw (==_refl (imei_of (some first)), is_online) refl)))
      (rw e' (unfold writer_of in rw (==_refl (imei_of (some first))) refl)))

-- Once the connection of a vehicle is deleted, nothing is sent to it.
pub send_msg-delete_channel :
    (imei : ℕ) (msg : Bytes) (s : Channels)
    → imei_of (some msg) ≡ imei
    → let s' = delete_channel_by_imei (some imei) s in
      (is_online imei s' ≡ false) × (send_msg (bytes msg) s' ≡ ok (false, s'))
unfolding is_online send_msg delete_channel_by_imei
send_msg-delete_channel imei msg s e = (
  rw (writer_of-without s.channels imei, is_online) refl,
  rw e (rw (writer_of-without s.channels imei) refl),
)

send_msg_sync-futures :
    (request : Bytes) (s s' : Channels) (fut : ℕ)
    → send_msg_sync (bytes request) s ≡ ok (fut, s')
    → let m = some request in (fut, s'.futures) ≡ create (imei_of m) (fun_of m) (msg_no m) s.futures
unfolding send_msg_sync
send_msg_sync-futures request s s' fut sent = ground arith

-- A frame that comes back with the vehicle, function code and message number of the request ends
-- the wait for it, with the frame's bytes.
pub wait-receive_msg :
    (request reply : Bytes) (s s' : Channels) (fut : ℕ)
    → send_msg_sync (bytes request) s ≡ ok (fut, s')
    → imei_of (some reply) ≡ imei_of (some request)
    → fun_of (some reply) ≡ fun_of (some request)
    → msg_no (some reply) ≡ msg_no (some request)
    → imei_of (some request) ≢ 0
    → text_eq (fun_of (some request)) (codes "00") ≡ false
    → (wait fut (receive_msg reply s').futures).0 ≡ response reply
unfolding receive_msg
wait-receive_msg request reply s s' fut sent e f g h k =
    let made = send_msg_sync-futures request s s' fut sent in
    rw (ap (λ (p : ℕ × Futures). p.0) made) (
      rw (ap (λ (p : ℕ × Futures). p.1) made) (
        rw (e, f, g)
          (rw (k, not_zero)
            (ap (λ (p : JsonMsg × Futures). p.0)
              (wait-future_complete (imei_of (some request)) (fun_of (some request))
                (msg_no (some request)) reply s.futures).0))))
  where
    not_zero : (imei_of (some request) == 0) ≡ false
    not_zero = ground arith
