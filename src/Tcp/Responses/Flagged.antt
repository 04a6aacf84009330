-- ===== src/Tcp/Responses/Flagged.antt =====
-- When a response counts as a success.
use ygvcs_py.Prelude.{
  ◌<◌, ◌≡◌, refl, ◌⊎◌, inl, inr, Bool, true, false, ◌&&◌, none, some, leb, arith, if◌then◌else◌,
  Text, codes, text_eq, length, slice,
}
use ygvcs_py.Prelude.Raises.{Raises, ok, raised, ◌>>=◌}
use ygvcs_py.Tcp.Constants.{code_at}
use ygvcs_py.Tcp.Responses.{
  Parsed, fail_default, success_text, is_one_of, flag_at_30, failed_text, is_0xff_or_0x00,
}

-- The same decision on the tests alone.
decided :
    (short two ff zero other ff30 : Bool) (t : Raises Text) (flag : Text) (p : Parsed)
    → (if short
        then ok (record { status = false; msg = none })
        else if two
        then (if ff
            then ok (record { status = true; msg = some flag })
            else ok (record { status = false; msg = some (if zero then fail_default else flag) }))
        else if other
        then ok (record { status = true; msg = some success_text })
        else if ff30
        then ok (record { status = true; msg = some success_text })
        else t >>= λ u. ok (record { status = false; msg = some u }))
      ≡ ok p
    → p.status ≡ true
    → (short ≡ false) × ((ff ≡ true) ⊎ (other ≡ true) ⊎ (ff30 ≡ true))
decided true two ff zero other ff30 t flag p e s = ground arith
decided false true true zero other ff30 t flag p e s = (refl, inl refl)
decided false true false zero other ff30 t flag p e s = ground arith
decided false false ff zero true ff30 t flag p e s = (refl, inr (inl refl))
decided false false ff zero false true t flag p e s = (refl, inr (inr refl))
decided false false ff zero false false (ok u) flag p e s = ground arith
decided false false ff zero false false raised flag p e s = ground arith

-- The flag says FF at the place where the command's responses have it, or the command is the one
-- that also takes 03.
abbrev pub Acknowledged : Text → Text → Type 0
Acknowledged task_code resp =
    (text_eq (slice resp 28 30) (codes "FF") ≡ true)
    ⊎ ((is_one_of task_code flag_at_30 ≡ true) × (text_eq (slice resp 30 32) (codes "FF") ≡ true))
    ⊎ ((text_eq task_code (code_at 75) ≡ true) × (text_eq (slice resp 28 30) (codes "03") ≡ true))

-- A response that counts as a success has more than 30 characters and a flag that says so.
both : (a b : Bool) → (a && b) ≡ true → (a ≡ true) × (b ≡ true)
both true b h = (refl, h)
both false b h = absurd (ground (arith, h))

chosen :
    (b : Bool) (x y z : Text)
    → text_eq (if b then x else y) z ≡ true
    → ((b ≡ true) × (text_eq x z ≡ true)) ⊎ (text_eq y z ≡ true)
chosen true x y z h = inl (refl, h)
chosen false x y z h = inr h

-- A response that counts as a success has more than 30 characters and the FF flag at its place, or
-- it answers the call command with the flag 03.
pub is_0xff_or_0x00_success :
    (task_code resp : Text) (p : Parsed)
    → is_0xff_or_0x00 task_code (some resp) ≡ ok p
    → p.status ≡ true
    → (30 < length resp) × Acknowledged task_code resp
unfolding is_0xff_or_0x00
is_0xff_or_0x00_success task_code resp p e s =
    let d =
      decided (leb (length resp) 30) (text_eq task_code (code_at 2))
        (text_eq (slice resp 28 30) (codes "FF")) (text_eq (slice resp 28 30) (codes "00"))
        (text_eq task_code (code_at 75) && text_eq (slice resp 28 30) (codes "03"))
        (text_eq (if is_one_of task_code flag_at_30 then slice resp 30 32 else slice resp 28 30)
          (codes "FF"))
        (failed_text (slice resp 24 26)
          (if is_one_of task_code flag_at_30 then slice resp 30 32 else slice resp 28 30))
        (slice resp 28 30) p e s in
    (ground (arith, d.0), acknowledged d.1)
  where
    acknowledged :
        (text_eq (slice resp 28 30) (codes "FF") ≡ true)
          ⊎ ((text_eq task_code (code_at 75) && text_eq (slice resp 28 30) (codes "03")) ≡ true)
          ⊎ (text_eq
                (if is_one_of task_code flag_at_30 then slice resp 30 32 else slice resp 28 30)
                (codes "FF")
              ≡ true)
        → Acknowledged task_code resp
    acknowledged (inl h) = inl h
    acknowledged (inr (inl h)) = inr (inr (both _ _ h))
    acknowledged (inr (inr h)) = elim (chosen (is_one_of task_code flag_at_30) _ _ _ h) [
      | inl b ↦ inr (inl b)
      | inr b ↦ inl b
    ]
