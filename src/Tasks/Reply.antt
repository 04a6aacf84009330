-- ===== src/Tasks/Reply.antt =====
-- What a service answers. A message is kept as its key in app/i18n, with the site code or the text
-- that the code puts beside it; the texts themselves are data.
use ygvcs_py.Prelude.{ℕ, Bool, true, false, Option, String, Text}

pub data Notice : Type 0 where
  silent : Notice
  notice : String → Notice
  site_notice : ℕ → String → Notice
  text_notice : String → Option Text → Notice
  flag_notice : String → Option Text → Notice
  conflict_notice : Option ℕ → Option String → String → Notice

-- JsonMsg of the task operations
pub record Outcome : Type 0 where
  pub status : Bool
  pub msg : Notice

abbrev pub done : Outcome
done = record { status = true; msg = silent }

abbrev pub refused : Notice → Outcome
refused n = record { status = false; msg = n }

-- JsonResult: `success()`, `success(text)`, `success({"code": 100, "msg": ...})` and
-- `fail(code, msg)`
pub data JsonResult : Type 0 where
  success : JsonResult
  success_of : Option String → JsonResult
  not_created : Notice → JsonResult
  fail : String → Notice → JsonResult
