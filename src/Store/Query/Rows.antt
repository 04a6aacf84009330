-- ===== src/Store/Query/Rows.antt =====
-- The rows of a table after it was changed, and the rows of a query over two tables in a row.
use ygvcs_py.Prelude.{
  ℕ, String, Option, none, ==→eq, eq_iff, ◌≡◌, refl, ap, ◌∙◌, ◌⊎◌, inl, inr, Bool, true, false,
  some, first, List, [], ◌∷◌, ◌++◌, if◌then◌else◌, Bool-cases, arith,
}
use ygvcs_py.Store.Query.{
  is_text, is_number, select, select_one, delete, update_by_example, insert_by, order_by,
}
use ygvcs_py.Store.Query.Sorted.{In, In-select, select-kept, select-cut}

pub is_number-eq : (o : Option ℕ) (n : ℕ) → is_number o n ≡ true → o ≡ some n
is_number-eq none n h = absurd (ground arith)
is_number-eq (some m) n h = ap some (==→eq m n h)

pub is_text-eq : (u : Option String) (v : String) → is_text u v ≡ true → u ≡ some v
is_text-eq none v h = absurd (ground arith)
is_text-eq (some u) v h = ap some ((eq_iff u v).0 h)

module _ {A : Type 0} where
  pub In-append : (xs ys : List A) (z : A) → In z (xs ++ ys) → In z xs ⊎ In z ys
  In-append [] ys z h = inr h
  In-append (x ∷ xs) ys z (inl e) = inl (inl e)
  In-append (x ∷ xs) ys z (inr h) = elim (In-append xs ys z h) [
    | inl m ↦ inl (inr m)
    | inr m ↦ inr m
  ]

  pub append-In : (xs ys : List A) (z : A) → In z xs ⊎ In z ys → In z (xs ++ ys)
  append-In [] ys z (inl none_left) = absurd none_left
  append-In [] ys z (inr m) = m
  append-In (x ∷ xs) ys z (inl (inl e)) = inl e
  append-In (x ∷ xs) ys z (inl (inr m)) = inr (append-In xs ys z (inl m))
  append-In (x ∷ xs) ys z (inr m) = inr (append-In xs ys z (inr m))

  pub In-delete :
      (p : A → Bool) (rows : List A) (x : A) → In x (delete p rows) → In x rows × (p x ≡ false)
  unfolding delete
  In-delete p [] x h = absurd h
  In-delete p (y ∷ rows) x h = elim (Bool-cases (p y)) [
    | inl t ↦ let (m, f) = In-delete p rows x (rw t at h) in (inr m, f)
    | inr f ↦ kept f (λ m. In-delete p rows x m) (rw f at h)
  ]
    where
      kept :
          p y ≡ false
          → (In x (delete p rows) → In x rows × (p x ≡ false))
          → (x ≡ y) ⊎ In x (delete p rows)
          → In x (y ∷ rows) × (p x ≡ false)
      kept f later (inl e) = (inl e, rw e f)
      kept f later (inr m) = let (m', g) = later m in (inr m', g)

  pub In-update :
      (f : A → A) (p : A → Bool) (rows : List A) (s : A)
      → In s (update_by_example f p rows)
      → ((r : A) × In r rows × (p r ≡ true) × (s ≡ f r)) ⊎ (In s rows × (p s ≡ false))
  unfolding update_by_example
  In-update f p [] s h = absurd h
  In-update f p (r ∷ rows) s (inr later) = elim (In-update f p rows s later) [
    | inl (q, m, t, e) ↦ inl (q, inr m, t, e)
    | inr (m, g) ↦ inr (inr m, g)
  ]
  In-update f p (r ∷ rows) s (inl e) = elim (Bool-cases (p r)) [
    | inl t ↦ inl (r, inl refl, t, rw t at e)
    | inr g ↦ let e' = rw g at e in inr (inl e', rw e' g)
  ]

  pub select-append :
      (p : A → Bool) (xs ys : List A) → select p (xs ++ ys) ≡ select p xs ++ select p ys
  select-append p [] ys = unfold select in refl
  select-append p (x ∷ xs) ys = elim (Bool-cases (p x)) [
    | inl t ↦
        rw (select-kept p x (xs ++ ys) t, select-kept p x xs t)
          (ap (λ l. x ∷ l) (select-append p xs ys))
    | inr f ↦ rw (select-cut p x (xs ++ ys) f, select-cut p x xs f) (select-append p xs ys)
  ]

  -- What was deleted is not found.
  pub select-delete :
      (p q : A → Bool) (rows : List A)
      → ((x : A) → p x ≡ true → q x ≡ true)
      → select p (delete q rows) ≡ []
  unfolding delete
  select-delete p q [] under = unfold select in refl
  select-delete p q (x ∷ rows) under = elim (Bool-cases (q x)) [
    | inl t ↦ rw t (select-delete p q rows under)
    | inr f ↦ rw f (select-cut p x (delete q rows) (not_found f) ∙ select-delete p q rows under)
  ]
    where
      not_found : q x ≡ false → p x ≡ false
      not_found f = elim (Bool-cases (p x)) [
        | inl t ↦ absurd (ground (arith, f, under x t))
        | inr g ↦ g
      ]

  pub select_one-In :
      (p : A → Bool) (rows : List A) (s : A) → select_one p rows ≡ some s → In s rows × (p s ≡ true)
  unfolding select_one
  select_one-In p rows s e = go (select p rows) refl e
    where
      go : (l : List A) → select p rows ≡ l → first l ≡ some s → In s rows × (p s ≡ true)
      go [] f g = absurd (ground arith)
      go (x ∷ l) f g = In-select p rows s (rw f (inl (ground arith)))

  In-insert_by :
      (before : A → A → Bool) (x : A) (ys : List A) (z : A)
      → In z (insert_by before x ys)
      → (z ≡ x) ⊎ In z ys
  unfolding insert_by
  In-insert_by before x [] z (inl e) = inl e
  In-insert_by before x [] z (inr none_left) = absurd none_left
  In-insert_by before x (y ∷ ys) z h = go (before x y) h (λ m. In-insert_by before x ys z m)
    where
      go :
          (b : Bool)
          → In z (if b then x ∷ y ∷ ys else y ∷ insert_by before x ys)
          → (In z (insert_by before x ys) → (z ≡ x) ⊎ In z ys)
          → (z ≡ x) ⊎ In z (y ∷ ys)
      go true m later = m
      go false (inl e) later = inr (inl e)
      go false (inr m) later = elim (later m) [ inl e ↦ inl e | inr k ↦ inr (inr k) ]

  -- An ordered query has the rows of the query.
  pub In-order_by :
      (before : A → A → Bool) (xs : List A) (z : A) → In z (order_by before xs) → In z xs
  unfolding order_by
  In-order_by before [] z h = h
  In-order_by before (x ∷ xs) z h = elim (In-insert_by before x (order_by before xs) z h) [
    | inl e ↦ inl e
    | inr m ↦ inr (In-order_by before xs z m)
  ]
