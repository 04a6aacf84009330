-- ===== src/Learned/Placed.antt =====
-- When init_location sends, and what.
use ygvcs_py.Prelude.{
  ℕ, ◌<◌, ◌≡◌, ◌⊎◌, refl, ap, inl, inr, Bool, true, false, ◌&&◌, ◌||◌, Option, none, some, List, [],
  ◌∷◌, ◌++◌, Text, codes, All, Bool-cases, ==_refl, ltb→lt, lt→ltb, arith,
}
use ygvcs_py.Prelude.Raises.{Raises, ok, raised}
use ygvcs_py.Store.Query.{is_number, select}
use ygvcs_py.Store.Query.Rows.{is_number-eq}
use ygvcs_py.Store.Query.Sorted.{select-kept, select-cut}
use ygvcs_py.Tasks.Reply.{Notice, JsonResult, success, fail}
use ygvcs_py.Tcp.Bytes.{int_to_hex}
use ygvcs_py.Tcp.Checked.{get_crc_to_send}
use ygvcs_py.Tcp.Futures.{JsonMsg}
use ygvcs_py.Vehicle.Memory.{MemoryTable}
use ygvcs_py.Vehicle.Frames.{join_texts}
use ygvcs_py.UserTasks.Guards.{is_flag}
use ygvcs_py.Learned.{
  ForkliftLine, init_location, init_vehicle, init_on, init_flags, send_init, init_frame, line_at,
  get_line_to_init, returns, above_one, is_there, return_number,
}

-- A line that the vehicle learned and that starts or ends at the station, with a line back and a step
-- number above 1.
pub record LeadsBack (imei site_code : ℕ) (l : ForkliftLine) : Type 0 where
  pub own : l.device_imei ≡ some imei
  pub at : (l.start_site_code ≡ some site_code) ⊎ (l.end_site_code ≡ some site_code)
  pub back : ((n : ℕ) × (l.return_line_id ≡ some n)) ⊎ ((n : ℕ) × (l.return_parent_id ≡ some n))
  pub steps : (n : ℕ) × (l.step_number ≡ some n) × (1 < n)

abbrev chosen : ℕ → ℕ → ForkliftLine → Bool
chosen imei code l =
    returns imei l && (is_number l.start_site_code code || is_number l.end_site_code code)

eq-is_number : (o : Option ℕ) (n : ℕ) → o ≡ some n → is_number o n ≡ true
eq-is_number o n e = rw e (==_refl n)

is_there-some : (o : Option ℕ) → is_there o ≡ true → (n : ℕ) × (o ≡ some n)
is_there-some none h = absurd (ground arith)
is_there-some (some n) h = (n, refl)

above_one-some : (o : Option ℕ) → above_one o ≡ true → (n : ℕ) × (o ≡ some n) × (1 < n)
above_one-some none h = absurd (ground arith)
above_one-some (some n) h = (n, refl, ltb→lt 1 n h)

either : (a b : Bool) → (a || b) ≡ true → (a ≡ true) ⊎ (b ≡ true)
either true b h = inl refl
either false b h = inr h

chosen-LeadsBack :
    (imei code : ℕ) (l : ForkliftLine) → chosen imei code l ≡ true → LeadsBack imei code l
chosen-LeadsBack imei code l h = record {
  own = is_number-eq l.device_imei imei (ground (arith, h));
  at =
      elim (either (is_number l.start_site_code code) (is_number l.end_site_code code)
        (ground (arith, h))) [
          | inl e ↦ inl (is_number-eq l.start_site_code code e)
          | inr e ↦ inr (is_number-eq l.end_site_code code e)
        ];
  back =
      elim (either (is_there l.return_line_id) (is_there l.return_parent_id) (ground (arith, h))) [
        | inl e ↦ inl (is_there-some l.return_line_id e)
        | inr e ↦ inr (is_there-some l.return_parent_id e)
      ];
  steps = above_one-some l.step_number (ground (arith, h));
}

LeadsBack-chosen :
    (imei code : ℕ) (l : ForkliftLine) → LeadsBack imei code l → chosen imei code l ≡ true
LeadsBack-chosen imei code l b =
    let own = eq-is_number l.device_imei imei b.own in
    let at : (is_number l.start_site_code code || is_number l.end_site_code code) ≡ true =
      elim b.at [
        | inl e ↦ let s = eq-is_number l.start_site_code code e in ground (arith, s)
        | inr e ↦ let s = eq-is_number l.end_site_code code e in ground (arith, s)
      ] in
    let back : (is_there l.return_line_id || is_there l.return_parent_id) ≡ true = elim b.back [
      | inl (n, e) ↦ rw e refl
      | inr (n, e) ↦ rw e (ground arith)
    ] in
    let (n, e, above) = b.steps in
    let steps : above_one l.step_number ≡ true = rw e (lt→ltb 1 n above) in
    ground (arith, own, at, back, steps)

-- The first of the lines that leads back.
pub record IsFirstBack (imei code : ℕ) (lines : List ForkliftLine) (l : ForkliftLine) : Type 0 where
  pub before : List ForkliftLine
  pub after : List ForkliftLine
  pub order : lines ≡ before ++ l ∷ after
  pub passed : All (λ k. ¬ LeadsBack imei code k) before
  pub leads : LeadsBack imei code l

not_chosen :
    (imei code : ℕ) (l : ForkliftLine) → chosen imei code l ≡ false → ¬ LeadsBack imei code l
not_chosen imei code l h b = ground (arith, h, LeadsBack-chosen imei code l b)

select-none :
    (imei code : ℕ) (lines : List ForkliftLine)
    → select (chosen imei code) lines ≡ []
    → All (λ k. ¬ LeadsBack imei code k) lines
select-none imei code [] e = tt
select-none imei code (l ∷ lines) e = elim (Bool-cases (chosen imei code l)) [
  | inl t ↦ absurd (ground (arith, rw (select-kept (chosen imei code) l lines t) at e))
  | inr f ↦ (
    not_chosen imei code l f,
    select-none imei code lines (rw (select-cut (chosen imei code) l lines f) at e),
  )
]

abbrev head_or : ForkliftLine → List ForkliftLine → ForkliftLine
head_or d [] = d
head_or d (l ∷ ls) = l

select-first :
    (imei code : ℕ) (lines : List ForkliftLine) (l : ForkliftLine) (ls : List ForkliftLine)
    → select (chosen imei code) lines ≡ l ∷ ls
    → IsFirstBack imei code lines l
select-first imei code [] l ls e =
    let f : [] ≡ l ∷ ls = unfold select in e in absurd (ground (arith, f))
select-first imei code (k ∷ lines) l ls e = elim (Bool-cases (chosen imei code k)) [
  | inl t ↦
      let same : k ≡ l = ap (head_or k) (rw (select-kept (chosen imei code) k lines t) at e) in
      record {
        before = [];
        after = lines;
        order = ap (λ x. x ∷ lines) same;
        passed = tt;
        leads = chosen-LeadsBack imei code l (rw (← same) t);
      }
  | inr f ↦
      let r =
        select-first imei code lines l ls (rw (select-cut (chosen imei code) k lines f) at e) in
      record {
        before = k ∷ r.before;
        after = r.after;
        order = ap (λ x. k ∷ x) r.order;
        passed = (not_chosen imei code k f, r.passed);
        leads = r.leads;
      }
]

module _ {W : Type 0} (send : Text → W → JsonMsg × W) (random imei site_code : ℕ) where
  -- The frame for the vehicle of a table: head, number, vehicle, function 76, length, station, the line
  -- back and the CRC.
  abbrev pub IsFrameOf : MemoryTable → ForkliftLine → Raises Text → Type 0
  IsFrameOf t l m =
      get_crc_to_send
        (join_texts (
          codes "40BF807F"
          ∷ int_to_hex random 4
          ∷ int_to_hex t.device_imei 4
          ∷ codes "76"
          ∷ codes "0007"
          ∷ int_to_hex site_code 3
          ∷ codes "00"
          ∷ int_to_hex (return_number l) 3
          ∷ []))
        (some (codes "123456789"))
      ≡ m

  -- The flags of an idle vehicle.
  abbrev pub idle_flags : List Text
  idle_flags = codes "77" ∷ codes "78" ∷ codes "83" ∷ codes "79" ∷ []

  -- How placing a vehicle ends.
  pub data Placed (lines : List ForkliftLine) (w : W)
      : Option MemoryTable → Raises JsonResult × W → Type 0 where
    no_table : {n : Notice} → Placed lines w none (ok (fail "1" n), w)
    offline :
        {t : MemoryTable} {n : Notice}
        → is_flag t.flag (codes "FF" ∷ []) ≡ true
        → Placed lines w (some t) (ok (fail "1" n), w)
    not_idle :
        {t : MemoryTable} {n : Notice}
        → is_flag t.flag idle_flags ≡ false
        → Placed lines w (some t) (ok (fail "1" n), w)
    not_learned :
        {t : MemoryTable} {n : Notice}
        → All (λ l. ¬ LeadsBack imei site_code l) lines
        → Placed lines w (some t) (ok (fail "1" n), w)
    no_frame :
        {t : MemoryTable} (l : ForkliftLine)
        → IsFirstBack imei site_code lines l
        → IsFrameOf t l raised
        → Placed lines w (some t) (raised, w)
    sent :
        {t : MemoryTable} {w' : W} (l : ForkliftLine) (frame : Text) (r : JsonMsg)
        → is_flag t.flag idle_flags ≡ true
        → IsFirstBack imei site_code lines l
        → IsFrameOf t l (ok frame)
        → send frame w ≡ (r, w')
        → r.status ≡ true
        → Placed lines w (some t) (ok success, w')
    not_taken :
        {t : MemoryTable} {n : Notice} {w' : W} (l : ForkliftLine) (frame : Text) (r : JsonMsg)
        → is_flag t.flag idle_flags ≡ true
        → IsFirstBack imei site_code lines l
        → IsFrameOf t l (ok frame)
        → send frame w ≡ (r, w')
        → r.status ≡ false
        → Placed lines w (some t) (ok (fail "1" n), w')

  send_init-Placed :
      (lines : List ForkliftLine) (w : W) (t : MemoryTable) (l : ForkliftLine) (m : Raises Text)
      → is_flag t.flag init_flags ≡ true
      → IsFirstBack imei site_code lines l
      → IsFrameOf t l m
      → Placed lines w (some t) (send_init send m w)
  send_init-Placed lines w t l raised f first e = no_frame l first e
  send_init-Placed lines w t l (ok frame) f first e = elim (Bool-cases (send frame w).0.status) [
    | inl s ↦ rw s (sent l frame (send frame w).0 f first e refl s)
    | inr s ↦ rw s (not_taken l frame (send frame w).0 f first e refl s)
  ]

  init_on-Placed :
      (lines : List ForkliftLine) (w : W) (t : MemoryTable) (ls : List ForkliftLine)
      → is_flag t.flag init_flags ≡ true
      → select (chosen imei site_code) lines ≡ ls
      → Placed lines w (some t) (init_on send random t site_code ls w)
  unfolding init_frame
  init_on-Placed lines w t [] f e = not_learned (select-none imei site_code lines e)
  init_on-Placed lines w t (l ∷ ls) f e =
      send_init-Placed lines w t l (init_frame random t.device_imei site_code l) f
        (select-first imei site_code lines l ls e) refl

  init_vehicle-Placed :
      (lines : List ForkliftLine) (w : W) (table : Option MemoryTable)
      → Placed lines w table (init_vehicle send random imei site_code table lines w)
  init_vehicle-Placed lines w none = no_table
  init_vehicle-Placed lines w (some t) = elim (Bool-cases (is_flag t.flag (codes "FF" ∷ []))) [
    | inl e ↦ rw (e) (offline e)
    | inr e ↦ elim (Bool-cases (is_flag t.flag init_flags)) [
      | inl f ↦
          rw (e, f)
            (init_on-Placed lines w t (get_line_to_init imei none none site_code lines) f
              (unfold get_line_to_init in unfold line_at in refl))
      | inr f ↦ rw (e, f) (not_idle f)
    ]
  ]

  -- Placing a vehicle at a station sends nothing and fails when the vehicle has no table, is offline or
  -- is not idle, or when none of the lines leads back from the station for it. Otherwise it sends one
  -- frame, which names the line back of the first line that does, and succeeds if the vehicle takes it,
  -- and fails if not; where the frame cannot be built, it raises and sends nothing.
  pub init_location-Placed :
      (table : Option MemoryTable) (lines : List ForkliftLine) (w : W)
      → Placed lines w table (init_location send random imei site_code table lines w)
  unfolding init_location
  init_location-Placed table lines w = init_vehicle-Placed lines w table
