-- ===== src/UserTasks/Apart.antt =====
-- A table of user tasks in which numbers and message ids are used once, and the writes that keep it
-- so.
use ygvcs_py.Prelude.{
  ℕ, ◌≡◌, refl, sym, ap, ◌∙◌, inl, inr, Bool, true, false, Option, none, some, List, [], ◌∷◌, ◌++◌,
  String, ◌==◌, arith, Bool-cases, if◌then◌else◌, str_eq, eq_iff,
}
use mathlib.Core.Path.{subst}
use ygvcs_py.Store.Query.{is_text, update_by_example, delete}
use ygvcs_py.Store.Query.Sorted.{In}
use ygvcs_py.Store.Query.Rows.{In-append, In-delete, In-update}
use ygvcs_py.Store.Tables.{UserTask, Db}
use ygvcs_py.Tasks.Create.{has_task}

-- Two rows with different numbers, and without a message id in common.
abbrev pub same_message : Option String → Option String → Bool
same_message none b = false
same_message (some m) b = is_text b m

pub record Apart (t u : UserTask) : Type 0 where
  pub numbers : (t.user_task_id == u.user_task_id) ≡ false
  pub messages : same_message t.message_id u.message_id ≡ false

-- Every row is apart from the rows after it.
abbrev pub AllApart : List UserTask → Type 0
AllApart [] = Unit
AllApart (t ∷ ts) = ((u : UserTask) → In u ts → Apart t u) × AllApart ts

pub AllApart-snoc :
    (ts : List UserTask) (t : UserTask)
    → AllApart ts
    → ((u : UserTask) → In u ts → Apart u t)
    → AllApart (ts ++ t ∷ [])
AllApart-snoc [] t h k = (λ u m. absurd m, tt)
AllApart-snoc (x ∷ ts) t h k = (rest, AllApart-snoc ts t h.1 (λ u m. k u (inr m)))
  where
    rest : (u : UserTask) → In u (ts ++ t ∷ []) → Apart x u
    rest u m = elim (In-append ts (t ∷ []) u m) [
      | inl old ↦ h.0 u old
      | inr (inl e) ↦ subst (Apart x) (sym e) (k x (inl refl))
      | inr (inr none_left) ↦ absurd none_left
    ]

pub AllApart-delete :
    (p : UserTask → Bool) (ts : List UserTask) → AllApart ts → AllApart (delete p ts)
unfolding delete
AllApart-delete p [] h = tt
AllApart-delete p (t ∷ ts) h = elim (Bool-cases (p t)) [
  | inl e ↦ rw e (AllApart-delete p ts h.1)
  | inr e ↦ rw e (λ u m. h.0 u (In-delete p ts u m).0, AllApart-delete p ts h.1)
]

-- A write that keeps a row's number and message id.
pub record Keeps (f : UserTask → UserTask) : Type 0 where
  pub number : (t : UserTask) → (f t).user_task_id ≡ t.user_task_id
  pub message : (t : UserTask) → (f t).message_id ≡ t.message_id

Keeps-if :
    (f : UserTask → UserTask)
    → Keeps f
    → (b : Bool) (t u : UserTask) → Apart t u
    → Apart (if b then f t else t) u
Keeps-if f k true t u a = record {
  numbers = rw (k.number t) a.numbers;
  messages = rw (k.message t) a.messages;
}
Keeps-if f k false t u a = a

Keeps-right : (f : UserTask → UserTask) → Keeps f → (t u : UserTask) → Apart t u → Apart t (f u)
Keeps-right f k t u a = record {
  numbers = rw (k.number u) a.numbers;
  messages = rw (k.message u) a.messages;
}

pub AllApart-update :
    (f : UserTask → UserTask) (p : UserTask → Bool) (ts : List UserTask)
    → Keeps f
    → AllApart ts
    → AllApart (update_by_example f p ts)
unfolding update_by_example
AllApart-update f p [] k h = tt
AllApart-update f p (t ∷ ts) k h = (rest, AllApart-update f p ts k h.1)
  where
    rest : (u : UserTask) → In u (update_by_example f p ts) → Apart (if p t then f t else t) u
    rest u m = Keeps-if f k (p t) t u (elim (In-update f p ts u m) [
      | inl (r, found, _, e) ↦ subst (Apart t) (sym e) (Keeps-right f k t r (h.0 r found))
      | inr (found, _) ↦ h.0 u found
    ])

-- In such a table a row is found by its number alone.
pub same_row :
    (ts : List UserTask) (t u : UserTask)
    → AllApart ts
    → In t ts
    → In u ts
    → (u.user_task_id == t.user_task_id) ≡ true
    → u ≡ t
same_row [] t u h m n e = absurd m
same_row (x ∷ ts) t u h (inl a) (inl b) e = b ∙ sym a
same_row (x ∷ ts) t u h (inl a) (inr n) e =
    absurd (ground (arith, (h.0 u n).numbers, ap (λ (r : UserTask). r.user_task_id) a))
same_row (x ∷ ts) t u h (inr m) (inl b) e =
    absurd (ground (arith, (h.0 t m).numbers, ap (λ (r : UserTask). r.user_task_id) b))
same_row (x ∷ ts) t u h (inr m) (inr n) e = same_row ts t u h.1 m n e

-- Writing a changed row over the rows of its number changes that row only.
pub update-row :
    (f : UserTask → UserTask) (t : UserTask) (ts : List UserTask)
    → ((u : UserTask) → In u ts → (u.user_task_id == t.user_task_id) ≡ true → u ≡ t)
    → update_by_example (λ _. f t) (λ r. r.user_task_id == t.user_task_id) ts
      ≡ update_by_example f (λ r. r.user_task_id == t.user_task_id) ts
unfolding update_by_example
update-row f t [] h = refl
update-row f t (u ∷ ts) h =
    rw (update-row f t ts (λ r m. h r (inr m)))
      (elim (Bool-cases (u.user_task_id == t.user_task_id)) [
        | inl e ↦ rw (h u (inl refl) e) refl
        | inr e ↦ rw e refl
      ])

has_task-In :
    (i : ℕ) (ts : List UserTask) (u : UserTask)
    → has_task i ts ≡ false
    → In u ts
    → (u.user_task_id == i) ≡ false
unfolding has_task
has_task-In i [] u h m = absurd m
has_task-In i (t ∷ ts) u h (inl e) = rw e (ground (arith, h))
has_task-In i (t ∷ ts) u h (inr m) = has_task-In i ts u (ground (arith, h)) m

-- A row whose number and message id the table has not.
pub snoc-AllApart :
    (ts : List UserTask) (t : UserTask)
    → has_task t.user_task_id ts ≡ false
    → ((u : UserTask) → In u ts → same_message u.message_id t.message_id ≡ false)
    → AllApart ts
    → AllApart (ts ++ t ∷ [])
snoc-AllApart ts t fresh new h =
    AllApart-snoc ts t h
      (λ u m. record { numbers = has_task-In t.user_task_id ts u fresh m; messages = new u m })

pub no_message : (a : Option String) → same_message a none ≡ false
no_message none = refl
no_message (some m) = refl

-- `==` on texts, the other way round.
pub other_message :
    (a : Option String) (m : String) → is_text a m ≡ false → same_message a (some m) ≡ false
other_message none m h = refl
other_message (some v) m h = elim (Bool-cases (str_eq m v)) [
  | inr f ↦ f
  | inl t ↦ absurd (ground (arith, h, (eq_iff v m).1 (sym ((eq_iff m v).0 t))))
]

-- A new task without a message id.
pub record Appended (db db' : Db) : Type 0 where
  pub task : UserTask
  pub queue : db'.user_tasks ≡ db.user_tasks ++ task ∷ []
  pub new_number : has_task task.user_task_id db.user_tasks ≡ false
  pub unnamed : task.message_id ≡ none
