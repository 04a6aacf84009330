-- ===== src/Tcp/Codec.antt =====
-- app/tcp/frame_codec.py: a `FrameBuffer` collects bytes and cuts them into frames.
pub mod Stream
pub mod Frames
use ygvcs_py.Prelude.{
  ℕ, zero, suc, ◌+◌, Bool, true, false, ◌&&◌, Option, none, some, List, [], ◌∷◌, ◌++◌, ltb, leb,
  ◌==◌, if◌then◌else◌, Bytes, text_eq, length, take, drop,
}

abbrev pub delimiter : Bytes
delimiter = 0x50 ∷ 0xaf ∷ 0xa0 ∷ 0x5f ∷ 0xa0 ∷ []

abbrev pub min_length : ℕ
min_length = 16

abbrev pub max_length : ℕ
max_length = 51200000

-- `_buf.find(DELIMITER)`: the first place at which the delimiter stands, if there is one.
unfoldable pub starts : Bytes → Bool
starts (a ∷ b ∷ c ∷ d ∷ e ∷ _) =
    (a == 0x50) && (b == 0xaf) && (c == 0xa0) && (d == 0x5f) && (e == 0xa0)
starts _ = false

unfoldable pub find : Bytes → Option ℕ
unfolding starts
find [] = none
find (x ∷ buf) = elim (starts (x ∷ buf)) [
  | true ↦ some 0
  | false ↦ elim (find buf) [ none ↦ none | some i ↦ some (suc i) ]
]

-- The frames that a call returns, and the bytes that stay in `_buf`.
pub record Fed : Type 0 where
  pub frames : List Bytes
  pub buf : Bytes

-- A frame of a length outside the bounds is dropped.
abbrev pub keep_frame : Bytes → List Bytes → List Bytes
keep_frame frame frames =
    if leb min_length (length frame) && ltb (length frame) max_length
    then frame ∷ frames
    else frames

-- The `while True` loop. Each round takes at least five bytes off, so the length is enough fuel.
unfoldable pub feed_loop : ℕ → Bytes → Fed
unfolding find
feed_loop zero buf = record { frames = []; buf = buf }
feed_loop (suc fuel) buf = elim (find buf) [
  | none ↦ record { frames = []; buf = buf }
  | some idx ↦
      let rest = feed_loop fuel (drop (idx + 5) buf) in
      record { frames = keep_frame (take (idx + 4) buf) rest.frames; buf = rest.buf }
]

-- `feed(data)` on a buffer that holds `buf`.
unfoldable pub feed : Bytes → Bytes → Fed
unfolding feed_loop
feed buf bytes = feed_loop (length (buf ++ bytes)) (buf ++ bytes)

unfoldable pub pending : Bytes → ℕ
pending buf = length buf
