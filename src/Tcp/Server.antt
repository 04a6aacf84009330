-- ===== src/Tcp/Server.antt =====
-- app/tcp/frame_server.py: what a connection's task does with the bytes that it reads. The message
-- handler is a parameter: its effect on the state it shares, and whether it raised.
pub mod Loop
use ygvcs_py.Prelude.{
  ℕ, ◌+◌, Bool, true, false, not, Option, none, some, List, [], ◌∷◌, ◌++◌, ◌==◌, if◌then◌else◌,
  Text, Bytes, codes, text_eq,
}
use ygvcs_py.Tcp.Bytes.{bytes_to_int, split_byte}
use ygvcs_py.Tcp.Codec.{Fed, feed}
use ygvcs_py.Tcp.Dict.{member, add, discard}
use ygvcs_py.Tcp.Futures.{decimal}
use ygvcs_py.Tcp.Channels.{
  Channels, imei_of, fun_of, save_channel, delete_channel_by_imei, receive_msg,
}

module _ {ℓ} (W : Type ℓ) where
  pub record Server : Type ℓ where
    pub doing : List Text
    pub channels : Channels
    pub world : W

  -- `message_handler(writer, frame)`; the Boolean says that it raised.
  abbrev pub Handler : Type ℓ
  Handler = ℕ → Bytes → Channels × W → (Channels × W) × Bool

module _ {ℓ} {W : Type ℓ} (handler : Handler W) where
  -- `f"{imei}:{fun}:{msg_no}"`, with the message number as an integer.
  unfoldable pub doing_key : Bytes → Text
  doing_key frame =
      decimal (imei_of (some frame))
      ++ (codes ":"
          ++ (fun_of (some frame)
              ++ (codes ":" ++ decimal (bytes_to_int (split_byte (some frame) 4 8) 4))))

  -- The body of the inner `try`: the state after it, and whether it raised.
  unfoldable pub process_frame : ℕ → Bytes → Channels × W → (Channels × W) × Bool
  process_frame writer frame (channels, world) =
      let ((channels', world'), raised) =
        handler writer frame (save_channel writer frame channels, world) in
      if raised
      then ((channels', world'), true)
      else if text_eq (fun_of (some frame)) (codes "00")
      then ((channels', world'), false)
      else ((receive_msg frame channels', world'), false)

  unfoldable pub on_frame : ℕ → Bytes → Server W → Option ℕ × Server W
  unfolding process_frame doing_key
  on_frame writer frame s =
      let k = doing_key frame in
      let ((channels, world), raised) = process_frame writer frame (s.channels, s.world) in
      if member k s.doing
      then (some (imei_of (some frame)), record s { doing = discard s.doing k })
      else (
        if raised then none else some (imei_of (some frame)),
        record { doing = discard (add s.doing k) k; channels = channels; world = world },
      )

  -- `self._on_frame(...) or imei_seen`
  abbrev pub seen_or : Option ℕ → Option ℕ → Option ℕ
  seen_or none seen = seen
  seen_or (some i) seen = if i == 0 then seen else some i

  -- `for frame in buf.feed(data)`
  unfoldable pub on_frames : ℕ → List Bytes → Option ℕ × Server W → Option ℕ × Server W
  unfolding on_frame
  on_frames writer [] (seen, s) = (seen, s)
  on_frames writer (f ∷ fs) (seen, s) =
      let (r, s') = on_frame writer f s in on_frames writer fs (seen_or r seen, s')

  -- The `while True` loop over what `reader.read` returned until the connection ended.
  unfoldable pub read_loop : ℕ → List Bytes → Bytes → Option ℕ × Server W → Option ℕ × Server W
  unfolding on_frames
  read_loop writer [] buf st = st
  read_loop writer (chunk ∷ chunks) buf st =
      let fed = feed buf chunk in read_loop writer chunks fed.buf (on_frames writer fed.frames st)

  -- `_handle` behind the greeting call of the handler, with the `finally` part.
  unfoldable pub handle : ℕ → List Bytes → Server W → Server W
  unfolding read_loop
  handle writer chunks s =
      let (seen, s') = read_loop writer chunks [] (none, s) in
      record s' { channels = delete_channel_by_imei seen s'.channels }
