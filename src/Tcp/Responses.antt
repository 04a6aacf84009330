-- ===== src/Tcp/Responses.antt =====
-- app/tcp/response_parser.py: whether a response says that the command was carried out.
pub mod Flagged
use ygvcs_py.Prelude.{
  ℕ, ◌-◌, Bool, true, false, not, ◌&&◌, ◌||◌, Option, none, some, List, [], ◌∷◌, String, ltb, leb,
  if◌then◌else◌, Text, codes, text_eq, length, slice, get_elem?,
}
use ygvcs_py.Prelude.Raises.{Raises, ok, raised, ◌>>=◌}
use ygvcs_py.Tcp.Bytes.{hex_string_to_bytes, bytes_to_int}
use ygvcs_py.Tcp.Constants.{code_at}
use ygvcs_py.Tcp.Flags.{flag_map, flags_in}
use ygvcs_py.Tcp.Futures.{decimal}

-- The status and message of the JsonMsg; its `otherData` is the response itself.
pub record Parsed : Type 0 where
  pub status : Bool
  pub msg : Option Text

abbrev pub fail_default : Text
fail_default = codes "명령 실행 실패, 지게차가 해당 명령 모드에 있는지 확인해 주세요!"

abbrev pub success_text : Text
success_text = codes "작업 성공!"

abbrev pub is_one_of : Text → List Text → Bool
is_one_of t [] = false
is_one_of t (u ∷ us) = text_eq t u || is_one_of t us

-- The function codes whose flag stands one byte further on.
abbrev pub flag_at_30 : List Text
flag_at_30 =
    code_at 28 ∷ code_at 29 ∷ code_at 90 ∷ code_at 91 ∷ code_at 92 ∷ code_at 93 ∷ code_at 94 ∷ []

-- `arr[idx] if idx <= len(arr) - 1 else flag`
abbrev pub flag_text : List String → ℕ → Text → Text
flag_text arr idx flag = elim (get_elem? arr idx) [ none ↦ flag | some s ↦ codes s ]

-- A flag that is not FF, looked up by the function code of the response.
unfoldable pub failed_text : Text → Text → Raises Text
unfolding flag_map flags_in
failed_text fun_code flag = do
  value ← hex_string_to_bytes (some flag)
  let idx = bytes_to_int value 1
  ok (
      if text_eq fun_code (code_at 93) || text_eq fun_code (code_at 94)
      then decimal idx
      else elim (flags_in flag_map fun_code) [
        | some arr ↦ flag_text arr idx flag
        | none ↦ if text_eq flag (codes "01") then codes "01" else fail_default
      ])

-- `task` is its function code and its response.
unfoldable pub is_0xff_or_0x00 : Text → Option Text → Raises Parsed
unfolding failed_text
is_0xff_or_0x00 task_code none = ok (record { status = false; msg = none })
is_0xff_or_0x00 task_code (some resp) =
    let flag = slice resp 28 30 in
    let flag30 = if is_one_of task_code flag_at_30 then slice resp 30 32 else flag in
    if leb (length resp) 30
    then ok (record { status = false; msg = none })
    else if text_eq task_code (code_at 2)
    then (if text_eq flag (codes "FF")
        then ok (record { status = true; msg = some flag })
        else ok (record {
          status = false;
          msg = some (if text_eq flag (codes "00") then fail_default else flag);
        }))
    else if text_eq task_code (code_at 75) && text_eq flag (codes "03")
    then ok (record { status = true; msg = some success_text })
    else if text_eq flag30 (codes "FF")
    then ok (record { status = true; msg = some success_text })
    else failed_text (slice resp 24 26) flag30 >>= λ t. ok (record { status = false; msg = some t })
