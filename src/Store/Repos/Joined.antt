-- ===== src/Store/Repos/Joined.antt =====
-- The rows of a joined query come from rows of both tables.
use ygvcs_py.Prelude.{
  ◌≡◌, refl, ap, ◌∙◌, ◌⊎◌, inl, inr, Bool, true, false, List, [], ◌∷◌, map, if◌then◌else◌,
}
use mathlib.Core.Path.{subst}
use ygvcs_py.Store.Query.Sorted.{In}
use ygvcs_py.Store.Query.Rows.{In-append, append-In}
use ygvcs_py.Store.Repos.{join, join_row}

module _ {A B : Type 0} where
  pub In-map : (f : A → B) (xs : List A) (y : B) → In y (map f xs) → (x : A) × In x xs × (y ≡ f x)
  In-map f [] y h = absurd h
  In-map f (x ∷ xs) y (inl e) = (x, inl refl, e)
  In-map f (x ∷ xs) y (inr h) = let (z, m, e) = In-map f xs y h in (z, inr m, e)

  In-if :
      (b : Bool) (x : A × B) (rest : List (A × B)) (z : A × B)
      → In z (if b then x ∷ rest else rest)
      → ((b ≡ true) × (z ≡ x)) ⊎ In z rest
  In-if true x rest z (inl e) = inl (refl, e)
  In-if true x rest z (inr later) = inr later
  In-if false x rest z h = inr h

  if-In :
      (b : Bool) (x : A × B) (rest : List (A × B)) (z : A × B)
      → In z rest
      → In z (if b then x ∷ rest else rest)
  if-In true x rest z h = inr h
  if-In false x rest z h = h

  In-join_row :
      (on : A → B → Bool) (a : A) (bs : List B) (z : A × B)
      → In z (join_row on a bs)
      → (z.0 ≡ a) × In z.1 bs × (on a z.1 ≡ true)
  In-join_row on a [] z h = absurd h
  In-join_row on a (b ∷ bs) z h = elim (In-if (on a b) (a, b) (join_row on a bs) z h) [
    | inl (t, e) ↦
        let r = ap (λ (q : A × B). q.1) e in (ap (λ (q : A × B). q.0) e, inl r, ap (on a) r ∙ t)
    | inr later ↦ let (e, m, t) = In-join_row on a bs z later in (e, inr m, t)
  ]

  pub In-join :
      (on : A → B → Bool) (xs : List A) (bs : List B) (z : A × B)
      → In z (join on xs bs)
      → In z.0 xs × In z.1 bs × (on z.0 z.1 ≡ true)
  In-join on [] bs z h = absurd h
  In-join on (a ∷ xs) bs z h = elim (In-append (join_row on a bs) (join on xs bs) z h) [
    | inl here ↦ let (e, m, t) = In-join_row on a bs z here in (inl e, m, ap (λ x. on x z.1) e ∙ t)
    | inr later ↦ let (m, n, t) = In-join on xs bs z later in (inr m, n, t)
  ]

  pub map-In : (f : A → B) (xs : List A) (x : A) → In x xs → In (f x) (map f xs)
  map-In f [] x h = absurd h
  map-In f (y ∷ xs) x (inl e) = inl (ap f e)
  map-In f (y ∷ xs) x (inr h) = inr (map-In f xs x h)

  join_row-In :
      (on : A → B → Bool) (a : A) (bs : List B) (b : B)
      → In b bs
      → on a b ≡ true
      → In (a, b) (join_row on a bs)
  join_row-In on a [] b h e = absurd h
  join_row-In on a (c ∷ bs) b (inl same) e = rw (← ap (on a) same, e) (inl (ap (λ d. (a, d)) same))
  join_row-In on a (c ∷ bs) b (inr h) e =
      if-In (on a c) (a, c) (join_row on a bs) (a, b) (join_row-In on a bs b h e)

  pub join-In :
      (on : A → B → Bool) (xs : List A) (bs : List B) (a : A) (b : B)
      → In a xs
      → In b bs
      → on a b ≡ true
      → In (a, b) (join on xs bs)
  join-In on [] bs a b h k e = absurd h
  join-In on (x ∷ xs) bs a b (inl same) k e =
      append-In (join_row on x bs) (join on xs bs) (a, b)
        (inl (subst (λ y. In (a, b) (join_row on y bs)) same (join_row-In on a bs b k e)))
  join-In on (x ∷ xs) bs a b (inr h) k e =
      append-In (join_row on x bs) (join on xs bs) (a, b) (inr (join-In on xs bs a b h k e))
