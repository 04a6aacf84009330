-- ===== src/Tcp/Dict.antt =====
-- Python's `dict` and `set` over texts. The program never iterates over one, so the order of the
-- entries is not modelled.
use ygvcs_py.Prelude.{
  ◌≡◌, refl, Bool, false, Option, none, some, List, [], ◌∷◌, Text, text_eq, if◌then◌else◌, arith,
  text_eq→eq, text_eq_refl, Bool-cases, inl, inr, ◌||◌, ◌≢◌,
}

module _ {ℓ} {V : Type ℓ} where
  -- d.get(k)
  unfoldable pub get : List (Text × V) → Text → Option V
  get [] k = none
  get ((j, v) ∷ d) k = if text_eq j k then some v else get d k

  -- d.pop(k, None)
  unfoldable pub remove : List (Text × V) → Text → List (Text × V)
  remove [] k = []
  remove ((j, v) ∷ d) k = let rest = remove d k in if text_eq j k then rest else (j, v) ∷ rest

  -- d[k] = v
  unfoldable pub put : List (Text × V) → Text → V → List (Text × V)
  put d k v = (k, v) ∷ remove d k

  pub get-remove :
      (d : List (Text × V)) (k j : Text)
      → get (remove d k) j ≡ (if text_eq k j then none else get d j)
  unfolding get remove
  get-remove [] k j = ground arith
  get-remove ((i, v) ∷ d) k j =
      ground
        (arith, get-remove d k j, text_eq→eq i k, text_eq→eq i j, text_eq→eq k j, text_eq_refl k)

  pub get-put :
      (d : List (Text × V)) (k j : Text) (v : V)
      → get (put d k v) j ≡ (if text_eq k j then some v else get d j)
  unfolding put get
  get-put d k j v = ground (arith, get-remove d k j)

  pub get-put_self : (d : List (Text × V)) (k : Text) (v : V) → get (put d k v) k ≡ some v
  unfolding put get
  get-put_self d k v = ground (arith, text_eq_refl k)

pub text_eq_of_ne : (s t : Text) → s ≢ t → text_eq s t ≡ false
text_eq_of_ne s t h = elim (Bool-cases (text_eq s t)) [
  | inl e ↦ absurd (h (text_eq→eq s t e))
  | inr f ↦ f
]

-- k in s, s.add(k), s.discard(k)
unfoldable pub member : Text → List Text → Bool
member k [] = false
member k (j ∷ s) = text_eq j k || member k s

unfoldable pub discard : List Text → Text → List Text
discard [] k = []
discard (j ∷ s) k = let rest = discard s k in if text_eq j k then rest else j ∷ rest

unfoldable pub add : List Text → Text → List Text
add s k = if member k s then s else k ∷ s

discard_absent : (s : List Text) (k : Text) → member k s ≡ false → discard s k ≡ s
unfolding member discard
discard_absent [] k h = refl
discard_absent (j ∷ s) k h = ground (arith, discard_absent s k)

-- Taking off again what was not there gives back the set.
pub discard-add : (s : List Text) (k : Text) → member k s ≡ false → discard (add s k) k ≡ s
unfolding add discard
discard-add s k h = rw h (rw (text_eq_refl k) (discard_absent s k h))
