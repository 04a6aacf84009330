-- ===== src/Tcp/Codec/Stream.antt =====
-- How a stream is cut into chunks does not matter.
use ygvcs_py.Prelude.{
  ℕ, zero, suc, ◌+◌, ◌-◌, ◌≤◌, ◌≡◌, inl, inr, refl, ap, sym, ◌∙◌, true, none, some, List, [], ◌∷◌,
  ◌++◌, Bytes, length, take, drop, arith, Option-cases, length-append, length-drop,
}
use mathlib.Core.List.{append_assoc}
use ygvcs_py.Tcp.Codec.{starts, find, Fed, keep_frame, feed_loop, feed}

-- Whether a delimiter stands at the front shows from five bytes.
starts-append : (x y : Bytes) → 5 ≤ length x → starts (x ++ y) ≡ starts x
unfolding starts
starts-append (a ∷ b ∷ c ∷ d ∷ e ∷ r) y h = refl
starts-append [] y h = absurd (omega arith)
starts-append (a ∷ []) y h = absurd (omega arith)
starts-append (a ∷ b ∷ []) y h = absurd (omega arith)
starts-append (a ∷ b ∷ c ∷ []) y h = absurd (omega arith)
starts-append (a ∷ b ∷ c ∷ d ∷ []) y h = absurd (omega arith)

length_of_starts : (x : Bytes) → starts x ≡ true → 5 ≤ length x
unfolding starts
length_of_starts (a ∷ b ∷ c ∷ d ∷ e ∷ r) h = omega arith
length_of_starts [] h = absurd (ground arith)
length_of_starts (a ∷ []) h = absurd (ground arith)
length_of_starts (a ∷ b ∷ []) h = absurd (ground arith)
length_of_starts (a ∷ b ∷ c ∷ []) h = absurd (ground arith)
length_of_starts (a ∷ b ∷ c ∷ d ∷ []) h = absurd (ground arith)

-- The delimiter that is found lies inside the buffer.
pub find_bound : (x : Bytes) (i : ℕ) → find x ≡ some i → i + 5 ≤ length x
unfolding find
find_bound [] i h = absurd (ground arith)
find_bound (a ∷ x) i h = ground (arith, length_of_starts (a ∷ x), find_bound x (i - 1))

-- More bytes behind the buffer do not move the first delimiter.
pub find-append : (x y : Bytes) (i : ℕ) → find x ≡ some i → find (x ++ y) ≡ some i
unfolding find
find-append [] y i h = absurd (ground arith)
find-append (a ∷ x) y i h = ground (
  arith,
  length_of_starts (a ∷ x),
  find_bound x (i - 1),
  starts-append (a ∷ x) y,
  find-append x y (i - 1),
)

abbrev pub emit : ℕ → Bytes → Fed → Fed
emit i buf rest = record { frames = keep_frame (take (i + 4) buf) rest.frames; buf = rest.buf }

pub feed_loop-none :
    (n : ℕ) (buf : Bytes) → find buf ≡ none → feed_loop n buf ≡ record { frames = []; buf = buf }
unfolding feed_loop
feed_loop-none zero buf e = refl
feed_loop-none (suc n) buf e = rw (e, feed_loop) refl

pub feed_loop-some :
    (n : ℕ) (buf : Bytes) (i : ℕ)
    → find buf ≡ some i
    → feed_loop (suc n) buf ≡ emit i buf (feed_loop n (drop (i + 5) buf))
unfolding feed_loop
feed_loop-some n buf i e = rw (e, feed_loop) refl

-- More fuel than bytes changes nothing.
feed_loop-fuel :
    (n m : ℕ) (buf : Bytes) → length buf ≤ n → length buf ≤ m → feed_loop n buf ≡ feed_loop m buf
feed_loop-fuel zero m buf p q = elim (Option-cases (find buf)) [
  | inl e ↦ feed_loop-none zero buf e ∙ sym (feed_loop-none m buf e)
  | inr (i, e) ↦ absurd (omega (arith, find_bound buf i e))
]
feed_loop-fuel (suc n) zero buf p q = elim (Option-cases (find buf)) [
  | inl e ↦ feed_loop-none (suc n) buf e ∙ sym (feed_loop-none zero buf e)
  | inr (i, e) ↦ absurd (omega (arith, find_bound buf i e))
]
feed_loop-fuel (suc n) (suc m) buf p q = elim (Option-cases (find buf)) [
  | inl e ↦ feed_loop-none (suc n) buf e ∙ sym (feed_loop-none (suc m) buf e)
  | inr (i, e) ↦
      let inside : i + 5 ≤ length buf = find_bound buf i e in
      feed_loop-some n buf i e
      ∙ ap (emit i buf) (
          feed_loop-fuel n m (drop (i + 5) buf) (omega (arith, length-drop buf (i + 5)))
            (omega (arith, length-drop buf (i + 5))))
      ∙ sym (feed_loop-some m buf i e)
]

keep_frame-append : (f : Bytes) (a b : List Bytes) → keep_frame f (a ++ b) ≡ keep_frame f a ++ b
keep_frame-append f a b = ground arith

take-append_le : (x y : Bytes) (n : ℕ) → n ≤ length x → take n (x ++ y) ≡ take n x
take-append_le x y zero h = refl
take-append_le [] y (suc n) h = absurd (omega arith)
take-append_le (a ∷ x) y (suc n) h = ap (λ t. a ∷ t) (take-append_le x y n (omega arith))

drop-append_le : (x y : Bytes) (n : ℕ) → n ≤ length x → drop n (x ++ y) ≡ drop n x ++ y
drop-append_le x y zero h = refl
drop-append_le [] y (suc n) h = absurd (omega arith)
drop-append_le (a ∷ x) y (suc n) h = drop-append_le x y n (omega arith)

-- What a call returned, then what a later call returned, as if it had been one call.
abbrev pub after : Fed → Fed → Fed
after r q = record { frames = r.frames ++ q.frames; buf = q.buf }

emit-append :
    (x y : Bytes) (i : ℕ) (r q : Fed)
    → i + 5 ≤ length x
    → emit i (x ++ y) (after r q) ≡ after (emit i x r) q
emit-append x y i r q h =
    rw (take-append_le x y (i + 4) (omega arith))
      (rw (keep_frame-append (take (i + 4) x) r.frames q.frames) refl)

-- The claim for any fuel that is enough. `k` is the fuel of the later call.
abbrev Splits : ℕ → ℕ → ℕ → Bytes → Bytes → Type 0
Splits n m k x y =
    length x ≤ n
    → length (x ++ y) ≤ m
    → length ((feed_loop n x).buf ++ y) ≤ k
    → feed_loop m (x ++ y) ≡ after (feed_loop n x) (feed_loop k ((feed_loop n x).buf ++ y))

Splits-none : (n m k : ℕ) (x y : Bytes) → find x ≡ none → Splits n m k x y
Splits-none n m k x y e p q r =
    rw (feed_loop-none n x e) (feed_loop-fuel m k (x ++ y) q (rw (feed_loop-none n x e) at r))

Splits-some :
    (n m k i : ℕ) (x y : Bytes)
    → find x ≡ some i
    → Splits n m k (drop (i + 5) x) y
    → Splits (suc n) (suc m) k x y
Splits-some n m k i x y e ih p q r = rw (feed_loop-some n x i e) (
    feed_loop-some m (x ++ y) i (find-append x y i e)
    ∙ ap (emit i (x ++ y)) (
        rw (drop-append_le x y (i + 5) inside)
          (ih (omega (arith, length-drop x (i + 5))) left (rw (feed_loop-some n x i e) at r)))
    ∙ emit-append x y i (feed_loop n (drop (i + 5) x)) _ inside)
  where
    inside : i + 5 ≤ length x
    inside = find_bound x i e

    left : length (drop (i + 5) x ++ y) ≤ m
    left =
        omega (
          arith,
          length-append (drop (i + 5) x) y,
          length-append x y,
          length-drop x (i + 5),
          inside,
        )

feed_loop-append : (n m k : ℕ) (x y : Bytes) → Splits n m k x y
feed_loop-append zero m k x y p q r = elim (Option-cases (find x)) [
  | inl e ↦ Splits-none zero m k x y e p q r
  | inr (i, e) ↦ absurd (omega (arith, find_bound x i e))
]
feed_loop-append (suc n) zero k x y p q r = elim (Option-cases (find x)) [
  | inl e ↦ Splits-none (suc n) zero k x y e p q r
  | inr (i, e) ↦ absurd (omega (arith, find_bound x i e, length-append x y))
]
feed_loop-append (suc n) (suc m) k x y p q r = elim (Option-cases (find x)) [
  | inl e ↦ Splits-none (suc n) (suc m) k x y e p q r
  | inr (i, e) ↦ Splits-some n m k i x y e (feed_loop-append n m k (drop (i + 5) x) y) p q r
]

-- Two chunks give the frames, and leave the bytes, that the two together give at once.
pub feed-append :
    (buf a b : Bytes) → feed buf (a ++ b) ≡ after (feed buf a) (feed (feed buf a).buf b)
unfolding feed
feed-append buf a b = rw (← append_assoc buf a b) (
    feed_loop-append (length (buf ++ a)) (length ((buf ++ a) ++ b)) _ (buf ++ a) b (omega arith)
      (omega arith) (omega arith))
