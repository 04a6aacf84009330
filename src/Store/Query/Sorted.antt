-- ===== src/Store/Query/Sorted.antt =====
-- The first row of an ordered query, and the rows of a selection.
use ygvcs_py.Prelude.{
  ℕ, ◌≡◌, refl, Bool, true, false, Option, none, some, List, [], ◌∷◌, ◌⊎◌, inl, inr, leb, arith,
  if◌then◌else◌, filter_by, first, Bool-cases,
}
use mathlib.Core.Path.{subst}
use ygvcs_py.Store.Query.{select, insert_by, order_by, order_asc, order_desc}

-- `x` is a row of the table.
abbrev pub In : {A : Type 0} → A → List A → Type 0
In x [] = ⊥
In x (y ∷ ys) = (x ≡ y) ⊎ In x ys

module _ {A : Type 0} where
  pub select-kept :
      (p : A → Bool) (y : A) (rows : List A) → p y ≡ true → select p (y ∷ rows) ≡ y ∷ select p rows
  unfolding select
  select-kept p y rows e = rw (e, filter_by) refl

  pub select-cut :
      (p : A → Bool) (y : A) (rows : List A) → p y ≡ false → select p (y ∷ rows) ≡ select p rows
  unfolding select
  select-cut p y rows e = rw (e, filter_by) refl

  pub In-select :
      (p : A → Bool) (rows : List A) (x : A) → In x (select p rows) → In x rows × (p x ≡ true)
  In-select p [] x h = absurd (unfold select in h)
  In-select p (y ∷ rows) x h = elim (Bool-cases (p y)) [
    | inl e ↦ elim (subst (In x) (select-kept p y rows e) h) [
      | inl same ↦ (inl same, rw same e)
      | inr later ↦ let (found, holds) = In-select p rows x later in (inr found, holds)
    ]
    | inr e ↦
        let (found, holds) = In-select p rows x (subst (In x) (select-cut p y rows e) h) in
        (inr found, holds)
  ]

  pub select-In :
      (p : A → Bool) (rows : List A) (x : A) → In x rows → p x ≡ true → In x (select p rows)
  select-In p [] x h e = absurd h
  select-In p (y ∷ rows) x (inl same) e = rw (select-kept p y rows (rw (← same) e)) (inl same)
  select-In p (y ∷ rows) x (inr later) e = elim (Bool-cases (p y)) [
    | inl t ↦ rw (select-kept p y rows t) (inr (select-In p rows x later e))
    | inr f ↦ rw (select-cut p y rows f) (select-In p rows x later e)
  ]

  -- The first row of an ordered query is a row, and none stands before it.
  abbrev pub IsFirst : (A → A → Bool) → Option A → List A → Type 0
  IsFirst before none rows = rows ≡ []
  IsFirst before (some x) rows = In x rows × ((y : A) → In y rows → before x y ≡ true)

  pub record IsOrder (before : A → A → Bool) : Type 0 where
    pub reflexive : (x : A) → before x x ≡ true
    pub total : (x y : A) → before x y ≡ false → before y x ≡ true
    pub transitive : (x y z : A) → before x y ≡ true → before y z ≡ true → before x z ≡ true

  first-insert_by :
      (before : A → A → Bool) (x : A) (sorted : List A)
      → first (insert_by before x sorted)
        ≡ elim (first sorted) [ none ↦ some x | some y ↦ if before x y then some x else some y ]
  unfolding insert_by
  first-insert_by before x [] = refl
  first-insert_by before x (y ∷ ys) = ground arith

module _ {A : Type 0} (before : A → A → Bool) (order : IsOrder before) where
  IsFirst-step :
      (x : A) (rows : List A) (o : Option A)
      → IsFirst before o rows
      → IsFirst before
          (elim o [ none ↦ some x | some y ↦ if before x y then some x else some y ])
          (x ∷ rows)
  IsFirst-step x rows none h = (inl refl, alone)
    where
      alone : (z : A) → In z (x ∷ rows) → before x z ≡ true
      alone z (inl same) = rw same (order.reflexive x)
      alone z (inr later) = absurd (subst (In z) h later)
  IsFirst-step x rows (some y) (found, least) = elim (Bool-cases (before x y)) [
    | inl e ↦ rw e (inl refl, front e)
    | inr e ↦ rw e (inr found, back e)
  ]
    where
      front : before x y ≡ true → (z : A) → In z (x ∷ rows) → before x z ≡ true
      front e z (inl same) = rw same (order.reflexive x)
      front e z (inr later) = order.transitive x y z e (least z later)

      back : before x y ≡ false → (z : A) → In z (x ∷ rows) → before y z ≡ true
      back e z (inl same) = rw same (order.total x y e)
      back e z (inr later) = least z later

  first-order_by : (rows : List A) → IsFirst before (first (order_by before rows)) rows
  unfolding order_by
  first-order_by [] = refl
  first-order_by (x ∷ rows) =
      rw (first-insert_by before x (order_by before rows))
        (IsFirst-step x rows (first (order_by before rows)) (first-order_by rows))

module _ {A : Type 0} (key : A → ℕ) where
  pub first-order_asc :
      (rows : List A) → IsFirst (λ x y. leb (key x) (key y)) (first (order_asc key rows)) rows
  unfolding order_asc
  first-order_asc =
      first-order_by (λ x y. leb (key x) (key y))
        (record {
          reflexive = λ x. ground arith;
          total = λ x y e. ground arith;
          transitive = λ x y z e f. ground arith;
        })

  pub first-order_desc :
      (rows : List A) → IsFirst (λ x y. leb (key y) (key x)) (first (order_desc key rows)) rows
  unfolding order_desc
  first-order_desc =
      first-order_by (λ x y. leb (key y) (key x))
        (record {
          reflexive = λ x. ground arith;
          total = λ x y e. ground arith;
          transitive = λ x y z e f. ground arith;
        })
