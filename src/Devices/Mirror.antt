-- ===== src/Devices/Mirror.antt =====
-- The copies in Redis are rows of the table.
use ygvcs_py.Prelude.{
  ℕ, ◌≡◌, refl, sym, ap, inl, inr, Bool, true, false, not, ◌&&◌, Option, none, some, List, [], ◌∷◌,
  String, str_eq, Bool-cases, arith, if◌then◌else◌, codes,
}
use mathlib.Core.Path.{subst}
use text.Mathlib.TextPositions.{eq_refl}
use ygvcs_py.Store.Query.{select, select_one, update_by_example, delete}
use ygvcs_py.Store.Query.Sorted.{In}
use ygvcs_py.Store.Query.Rows.{append-In, select_one-In}
use ygvcs_py.Store.Tables.{Device, Db}
use ygvcs_py.Devices.{
  is_written, Devices, drop_copy, DeviceAddForm, DeviceEditForm, has_imei, has_name, any_row,
  new_device, insert_device, add_device, edited, name_taken, save_device, rename_places, edit_row,
  edit_device, number_of, without_vehicle, del_device, auto_device, auto_register,
}

-- Each copy is a row of the table, and stands under that row's key.
pub record Mirror (s : Devices) : Type 0 where
  pub rows : (k : String) (d : Device) → In (k, d) s.kept → In d s.db.devices × (d.device_imei ≡ k)

-- What a call may do: keep the rows of other devices, and keep or replace the copy of one.
drop_copy-In :
    (imei : String) (kept : List (String × Device)) (k : String) (d : Device)
    → In (k, d) (drop_copy imei kept)
    → In (k, d) kept × (str_eq k imei ≡ false)
unfolding drop_copy
drop_copy-In imei [] k d m = absurd m
drop_copy-In imei ((k', d') ∷ kept) k d m =
    go (str_eq k' imei) refl m (λ n. drop_copy-In imei kept k d n)
  where
    go :
        (b : Bool)
        → str_eq k' imei ≡ b
        → In (k, d) (if b then drop_copy imei kept else (k', d') ∷ drop_copy imei kept)
        → (In (k, d) (drop_copy imei kept) → In (k, d) kept × (str_eq k imei ≡ false))
        → In (k, d) ((k', d') ∷ kept) × (str_eq k imei ≡ false)
    go true e n later = let (found, f) = later n in (inr found, f)
    go false e (inl same) later = (inl same, rw (ap (λ (q : String × Device). q.0) same) e)
    go false e (inr n) later = let (found, f) = later n in (inr found, f)

other_row :
    (v : Device) (imei : String) (rows : List Device) (d : Device)
    → In d rows
    → str_eq d.device_imei imei ≡ false
    → In d (update_by_example (λ _. v) (has_imei imei) rows)
unfolding update_by_example
other_row v imei [] d m other = absurd m
other_row v imei (x ∷ rows) d (inl e) other = inl (rw (← e, other) refl)
other_row v imei (x ∷ rows) d (inr m) other = inr (other_row v imei rows d m other)

own_row :
    (v : Device) (imei : String) (rows : List Device) (d : Device)
    → In d rows
    → str_eq d.device_imei imei ≡ true
    → In v (update_by_example (λ _. v) (has_imei imei) rows)
unfolding update_by_example
own_row v imei [] d m own = absurd m
own_row v imei (x ∷ rows) d (inl e) own = inl (rw (← e, own) refl)
own_row v imei (x ∷ rows) d (inr m) own = inr (own_row v imei rows d m own)

kept_row :
    (p : Device → Bool) (rows : List Device) (d : Device)
    → In d rows
    → p d ≡ false
    → In d (delete p rows)
unfolding delete
kept_row p [] d m f = absurd m
kept_row p (x ∷ rows) d m f = go (p x) refl m (λ n. kept_row p rows d n f)
  where
    go :
        (b : Bool)
        → p x ≡ b
        → In d (x ∷ rows)
        → (In d rows → In d (delete p rows))
        → In d (delete p (x ∷ rows))
    go true e (inl same) later = absurd (ground (arith, ap p same, e, f))
    go true e (inr n) later = rw (delete, e) (later n)
    go false e (inl same) later = rw (delete, e) (inl same)
    go false e (inr n) later = rw (delete, e) (inr (later n))

-- A row is added, and perhaps copied.
Mirror-insert :
    (d : Device) (s : Devices) → Mirror s → Mirror (record s { db = insert_device d s.db })
Mirror-insert d s h = record {
  rows =
      λ k c m. let (found, e) = h.rows k c m in (append-In s.db.devices (d ∷ []) c (inl found), e);
}

Mirror-copy :
    (imei : String) (d : Device) (s : Devices)
    → In d s.db.devices
    → d.device_imei ≡ imei
    → Mirror (record s { kept = drop_copy imei s.kept })
    → Mirror (record s { kept = (imei, d) ∷ drop_copy imei s.kept })
Mirror-copy imei d s found own h = record { rows = rows }
  where
    rows :
        (k : String) (c : Device)
        → In (k, c) ((imei, d) ∷ drop_copy imei s.kept)
        → In c s.db.devices × (c.device_imei ≡ k)
    rows k c (inl e) =
        let same = ap (λ (q : String × Device). q.1) e in
        let key = ap (λ (q : String × Device). q.0) e in
        (subst (λ x. In x s.db.devices) (sym same) found, rw (same, key) own)
    rows k c (inr m) = h.rows k c m

Mirror-drop :
    (imei : String) (s : Devices) → Mirror s → Mirror (record s { kept = drop_copy imei s.kept })
Mirror-drop imei s h = record { rows = λ k c m. h.rows k c (drop_copy-In imei s.kept k c m).0 }

-- The rows of one device are written over or deleted: the copies of the others are rows still.
Mirror-others :
    (imei : String) (s : Devices) (db : Db)
    → ((d : Device) → In d s.db.devices → str_eq d.device_imei imei ≡ false → In d db.devices)
    → Mirror s
    → Mirror (record { db = db; kept = drop_copy imei s.kept })
Mirror-others imei s db keeps h = record {
  rows = λ k c m.
      let (n, other) = drop_copy-In imei s.kept k c m in
      let (found, e) = h.rows k c n in (keeps c found (rw e other), e);
}

add_device-Mirror : (form : DeviceAddForm) (s : Devices) → Mirror s → Mirror (add_device form s).1
unfolding add_device new_device
add_device-Mirror form s h =
    go (any_row (select (has_imei form.device_imei) s.db.devices))
      (any_row (select (has_name form.device_name) s.db.devices))
      (str_eq form.type "2" && not (is_written form.action)) refl refl refl
  where
    d : Device
    d = new_device form

    s1 : Devices
    s1 = record s { db = insert_device d s.db }

    added : Mirror (record s1 { kept = (form.device_imei, d) ∷ drop_copy form.device_imei s.kept })
    added =
        Mirror-copy form.device_imei d s1 (append-In s.db.devices (d ∷ []) d (inr (inl refl)))
          (unfold new_device in refl) (Mirror-drop form.device_imei s1 (Mirror-insert d s h))

    go :
        (a b c : Bool)
        → any_row (select (has_imei form.device_imei) s.db.devices) ≡ a
        → any_row (select (has_name form.device_name) s.db.devices) ≡ b
        → (str_eq form.type "2" && not (is_written form.action)) ≡ c
        → Mirror (add_device form s).1
    go true b c e f g = rw (add_device, e) h
    go false true c e f g = rw (add_device, e, f) h
    go false false true e f g = rw (add_device, e, f, g) h
    go false false false e f g = rw (add_device, e, f, g) added

edit_device-Mirror :
    (form : DeviceEditForm) (s : Devices) → Mirror s → Mirror (edit_device form s).1
unfolding edit_device save_device rename_places edited
edit_device-Mirror form s h = go (select_one (has_imei form.device_imei) s.db.devices) refl
  where
    devices_of : (rename_places form s.db).devices ≡ s.db.devices
    devices_of = elim (Bool-cases (is_written form.device_name)) [
      | inl e ↦ rw (rename_places, e) refl
      | inr e ↦ rw (rename_places, e) refl
    ]

    saved :
        (d : Device)
        → In d s.db.devices
        → Mirror (record {
          db = save_device (edited form d) (rename_places form s.db);
          kept = (d.device_imei, edited form d) ∷ drop_copy d.device_imei s.kept;
        })
    saved d m =
        Mirror-copy d.device_imei (edited form d)
          (record { db = save_device (edited form d) (rename_places form s.db); kept = s.kept })
          (rw devices_of (own_row (edited form d) d.device_imei s.db.devices d m (eq_refl _))) refl
          (Mirror-others d.device_imei s (save_device (edited form d) (rename_places form s.db))
            (λ c n other.
              rw devices_of (other_row (edited form d) d.device_imei s.db.devices c n other))
            h)

    go :
        (o : Option Device)
        → select_one (has_imei form.device_imei) s.db.devices ≡ o
        → Mirror (edit_row form o s).1
    go none e = h
    go (some d) e = elim (Bool-cases (name_taken form.device_name s.db)) [
      | inl t ↦ rw t h
      | inr f ↦ rw f (saved d (select_one-In (has_imei form.device_imei) s.db.devices d e).0)
    ]

without_vehicle-devices : (o : Option ℕ) (db : Db) → (without_vehicle o db).devices ≡ db.devices
without_vehicle-devices none db = refl
without_vehicle-devices (some n) db = refl

del_device-Mirror : (imei : String) (s : Devices) → Mirror s → Mirror (del_device imei s).1
unfolding del_device
del_device-Mirror imei s h =
    Mirror-others imei s _
      (λ d m other.
        rw (without_vehicle-devices (number_of (codes imei)) _)
          (kept_row (has_imei imei) s.db.devices d m other))
      h

auto_register-Mirror : (imei : String) (s : Devices) → Mirror s → Mirror (auto_register imei s)
unfolding auto_register
auto_register-Mirror imei s h = elim (Bool-cases (any_row (select (has_imei imei) s.db.devices))) [
  | inl e ↦ rw e h
  | inr e ↦ rw e (Mirror-insert (auto_device imei) s h)
]

-- A call of the device service, or a first heartbeat.
pub data Call : Type 0 where
  adds : DeviceAddForm → Call
  edits : DeviceEditForm → Call
  deletes : String → Call
  registers : String → Call

unfoldable pub run : Call → Devices → Devices
run (adds form) s = (add_device form s).1
run (edits form) s = (edit_device form s).1
run (deletes imei) s = (del_device imei s).1
run (registers imei) s = auto_register imei s

unfoldable pub run_all : List Call → Devices → Devices
unfolding run
run_all [] s = s
run_all (c ∷ cs) s = run_all cs (run c s)

run-Mirror : (c : Call) (s : Devices) → Mirror s → Mirror (run c s)
unfolding run
run-Mirror (adds form) s h = add_device-Mirror form s h
run-Mirror (edits form) s h = edit_device-Mirror form s h
run-Mirror (deletes imei) s h = del_device-Mirror imei s h
run-Mirror (registers imei) s h = auto_register-Mirror imei s h

-- Where every copy of a device in Redis is a row of the table under the row's key, every copy is
-- after any sequence of additions, edits, deletions and first heartbeats, refused ones included.
pub run_all-Mirror : (cs : List Call) (s : Devices) → Mirror s → Mirror (run_all cs s)
unfolding run_all
run_all-Mirror [] s h = h
run_all-Mirror (c ∷ cs) s h = run_all-Mirror cs (run c s) (run-Mirror c s h)
