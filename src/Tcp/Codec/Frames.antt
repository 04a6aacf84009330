-- ===== src/Tcp/Codec/Frames.antt =====
-- What the frames look like, what stays in the buffer, and frames sent one behind another.
use ygvcs_py.Prelude.{
  ℕ, zero, suc, ◌+◌, ◌<◌, ◌≤◌, ◌≡◌, inl, inr, refl, ap, ◌∙◌, none, some, List, [], ◌∷◌, ◌++◌, Bytes,
  All, length, take, drop, arith, Option-cases, Bool-cases, length-append, length-drop, leb, ltb,
  true, ◌&&◌, take-append,
}
use ygvcs_py.Tcp.Codec.{starts, find, keep_frame, feed_loop, feed, min_length, max_length}
use ygvcs_py.Tcp.Codec.Stream.{find_bound, feed_loop-none, feed_loop-some, feed-append}

-- `FRAME_END`
abbrev pub frame_end : Bytes
frame_end = 0x50 ∷ 0xaf ∷ 0xa0 ∷ 0x5f ∷ []

take_of_starts : (x : Bytes) → starts x ≡ true → take 4 x ≡ frame_end
unfolding starts
take_of_starts (a ∷ b ∷ c ∷ d ∷ e ∷ r) h = ground arith
take_of_starts [] h = absurd (ground arith)
take_of_starts (a ∷ []) h = absurd (ground arith)
take_of_starts (a ∷ b ∷ []) h = absurd (ground arith)
take_of_starts (a ∷ b ∷ c ∷ []) h = absurd (ground arith)
take_of_starts (a ∷ b ∷ c ∷ d ∷ []) h = absurd (ground arith)

find_tail : (a : ℕ) (x : Bytes) (i : ℕ) → find (a ∷ x) ≡ some (suc i) → find x ≡ some i
unfolding find
find_tail a x i h = ground arith

-- What is cut off at the delimiter ends in `FRAME_END`.
take_at_find : (x : Bytes) (i : ℕ) → find x ≡ some i → take (i + 4) x ≡ take i x ++ frame_end
unfolding find
take_at_find [] i h = absurd (ground arith)
take_at_find (a ∷ x) zero h = ground (arith, take_of_starts (a ∷ x))
take_at_find (a ∷ x) (suc i) h =
    let e : suc i + 4 ≡ suc (i + 4) = omega arith in
    rw e (ap (λ t. a ∷ t) (take_at_find x i (find_tail a x i h)))

-- A frame that `feed` returns.
pub record IsFrame (f : Bytes) : Type 0 where
  pub body : Bytes
  pub ends : f ≡ body ++ frame_end
  pub at_least : min_length ≤ length f
  pub below : length f < max_length

keep_frame-IsFrame :
    (f body : Bytes) (fs : List Bytes)
    → f ≡ body ++ frame_end
    → All IsFrame fs
    → All IsFrame (keep_frame f fs)
keep_frame-IsFrame f body fs e h =
    elim (Bool-cases (leb min_length (length f) && ltb (length f) max_length)) [
      | inl fits ↦
          rw fits
            (record { body = body; ends = e; at_least = ground arith; below = ground arith }, h)
      | inr cut ↦ rw cut h
    ]

feed_loop-IsFrame : (n : ℕ) (buf : Bytes) → All IsFrame (feed_loop n buf).frames
feed_loop-IsFrame zero buf = unfold feed_loop in tt
feed_loop-IsFrame (suc n) buf = elim (Option-cases (find buf)) [
  | inl e ↦ rw (feed_loop-none (suc n) buf e) tt
  | inr (i, e) ↦ rw (feed_loop-some n buf i e) (
      keep_frame-IsFrame (take (i + 4) buf) (take i buf) _ (take_at_find buf i e)
        (feed_loop-IsFrame n (drop (i + 5) buf)))
]

feed_loop-pending : (n : ℕ) (buf : Bytes) → length buf ≤ n → find (feed_loop n buf).buf ≡ none
feed_loop-pending zero [] p = unfold feed_loop find in refl
feed_loop-pending zero (x ∷ buf) p = absurd (omega arith)
feed_loop-pending (suc n) buf p = elim (Option-cases (find buf)) [
  | inl e ↦ rw (feed_loop-none (suc n) buf e) e
  | inr (i, e) ↦ rw (feed_loop-some n buf i e) (
      feed_loop-pending n (drop (i + 5) buf)
        (omega (arith, length-drop buf (i + 5), find_bound buf i e)))
]

-- Every frame that a call returns ends in `FRAME_END` and has a length within the bounds, and no
-- delimiter stays in the buffer.
pub feed-IsFrame :
    (buf bytes : Bytes) → All IsFrame (feed buf bytes).frames × (find (feed buf bytes).buf ≡ none)
unfolding feed
feed-IsFrame buf bytes = (
  feed_loop-IsFrame (length (buf ++ bytes)) (buf ++ bytes),
  feed_loop-pending (length (buf ++ bytes)) (buf ++ bytes) (omega arith),
)

-- A frame as a vehicle sends it: with `FRAME_END` at its end and, the byte behind it counted in,
-- no delimiter before that.
pub record IsSendable (f : Bytes) : Type 0 where
  pub end : ℕ
  pub found : find (f ++ 0xa0 ∷ []) ≡ some end
  pub at_end : end + 4 ≡ length f
  pub at_least : min_length ≤ length f
  pub below : length f < max_length

-- The bytes on the wire.
abbrev pub send_all : List Bytes → Bytes
send_all [] = []
send_all (f ∷ fs) = (f ++ 0xa0 ∷ []) ++ send_all fs

drop_all : (x : Bytes) (n : ℕ) → length x ≤ n → drop n x ≡ []
drop_all [] zero h = refl
drop_all [] (suc n) h = refl
drop_all (a ∷ x) zero h = absurd (omega arith)
drop_all (a ∷ x) (suc n) h = drop_all x n (omega arith)

keep_frame_fits :
    (f : Bytes) (fs : List Bytes)
    → min_length ≤ length f
    → length f < max_length
    → keep_frame f fs ≡ f ∷ fs
keep_frame_fits f fs p q = ground arith

feed_one :
    (f : Bytes) → IsSendable f → feed [] (f ++ 0xa0 ∷ []) ≡ record { frames = f ∷ []; buf = [] }
unfolding feed
feed_one f s =
    let x : Bytes = f ++ 0xa0 ∷ [] in
    let len : length x ≡ suc (length f) = omega (arith, length-append f (0xa0 ∷ [])) in
    rw len (
      feed_loop-some (length f) x s.end s.found
      ∙ rw (drop_all x (s.end + 5) (omega (arith, s.at_end))) (
          rw (feed_loop-none (length f) [] (unfold find in refl)) (
            rw (take-append f (0xa0 ∷ []) (s.end + 4) s.at_end)
              (rw (keep_frame_fits f [] s.at_least s.below) refl))))

-- Frames that are sent one behind another come out of the buffer, in order, and nothing is left.
pub feed-send_all :
    (fs : List Bytes) → All IsSendable fs → feed [] (send_all fs) ≡ record { frames = fs; buf = [] }
feed-send_all [] h = unfold feed feed_loop in refl
feed-send_all (f ∷ fs) h =
    feed-append [] (f ++ 0xa0 ∷ []) (send_all fs)
    ∙ (rw (feed_one f h.0) (rw (feed-send_all fs h.1) refl))
