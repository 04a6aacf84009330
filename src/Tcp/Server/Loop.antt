-- ===== src/Tcp/Server/Loop.antt =====
-- The server loop.
use ygvcs_py.Prelude.{ℕ, ◌≡◌, refl, Option, none, some, List, [], ◌∷◌, ◌++◌, Bytes, if◌then◌else◌}
use ygvcs_py.Tcp.Codec.{feed}
use ygvcs_py.Tcp.Codec.Stream.{feed-append}
use ygvcs_py.Tcp.Dict.{member, discard-add}
use ygvcs_py.Tcp.Channels.{imei_of}
use ygvcs_py.Tcp.Server.{Server, Handler, doing_key, process_frame, on_frame, on_frames, read_loop}

module _ {ℓ} {W : Type ℓ} (handler : Handler W) where
  on_frames-append :
      (writer : ℕ) (fs gs : List Bytes) (st : Option ℕ × Server W)
      → on_frames handler writer (fs ++ gs) st
        ≡ on_frames handler writer gs (on_frames handler writer fs st)
  unfolding on_frames
  on_frames-append writer [] gs (seen, s) = refl
  on_frames-append writer (f ∷ fs) gs (seen, s) = on_frames-append writer fs gs _

  -- Where two reads of a connection are cut makes no difference to the server.
  pub read_loop-chunks :
      (writer : ℕ) (a b : Bytes) (chunks : List Bytes) (buf : Bytes) (st : Option ℕ × Server W)
      → read_loop handler writer (a ∷ b ∷ chunks) buf st
        ≡ read_loop handler writer ((a ++ b) ∷ chunks) buf st
  unfolding read_loop
  read_loop-chunks writer a b chunks buf st =
      rw (feed-append buf a b)
        (rw (on_frames-append writer (feed buf a).frames (feed (feed buf a).buf b).frames st) refl)

  -- With no frame in work, every frame goes through the whole processing, a second copy of a
  -- frame like the first, and no frame is in work after it.
  pub on_frame_idle :
      (writer : ℕ) (frame : Bytes) (s : Server W)
      → s.doing ≡ []
      → let ((channels, world), raised) =
          process_frame handler writer frame (s.channels, s.world) in
        on_frame handler writer frame s ≡ (
          (if raised then none else some (imei_of (some frame))),
          record { doing = []; channels = channels; world = world },
        )
  unfolding on_frame
  on_frame_idle writer frame s e =
      rw e (unfold member in rw (discard-add [] (doing_key handler frame) refl) refl)
