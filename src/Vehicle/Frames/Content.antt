-- ===== src/Vehicle/Frames/Content.antt =====
-- What a task frame carries, as the vehicle reads it.
use ygvcs_py.Prelude.{
  ℕ, ◌+◌, ◌^◌, ◌<◌, ◌≡◌, refl, ap, ◌∙◌, some, [], ◌∷◌, ◌++◌, Text, Bytes, codes, arith, All, IsByte,
  true,
}
use ygvcs_py.Prelude.Raises.{ok}
use ygvcs_py.Tcp.Bytes.{
  hex_string_to_bytes, print_hex_string, print_hex_byte, hex_digit, int_to_bytes, int_to_hex,
  split_byte, without_spaces,
}
use ygvcs_py.Tcp.Bytes.Hex.{print-append}
use ygvcs_py.Tcp.Bytes.Ints.{bytes_to_int-int_to_bytes}
use ygvcs_py.Tcp.Checked.{get_crc_to_send, checked_crc}
use ygvcs_py.Tcp.Checked.Send.{sent_frame, checked_crc-get_crc_to_send}
use ygvcs_py.Store.Tables.{UserTask}
use ygvcs_py.Vehicle.Memory.{field}
use ygvcs_py.Vehicle.Frames.{
  join_texts, password, or_zero, append_way_points_task_msg, str_of, str_or_zero, append_task_msg,
}

-- The bytes between the head and the CRC.
abbrev pub task_content : UserTask → ℕ → ℕ → ℕ → ℕ → Bytes
task_content ut imei start d e =
    int_to_bytes ut.user_task_id 4
    ++ (int_to_bytes imei 4
        ++ ((0xb2 ∷ [])
            ++ (int_to_bytes 14 2
                ++ (int_to_bytes start 4
                    ++ ((d ∷ [])
                        ++ (int_to_bytes (or_zero ut.start_storage_height) 2
                            ++ (int_to_bytes (or_zero ut.end_site_code) 4
                                ++ ((e ∷ [])
                                    ++ int_to_bytes (or_zero ut.end_storage_height) 2))))))))

digit_text : (d : ℕ) → d < 10 → print_hex_string (d ∷ []) ≡ 48 ∷ (48 + d) ∷ []
unfolding print_hex_string print_hex_byte hex_digit
digit_text d h = ground arith

-- The vehicle's reading of the frame.
pub record Carries (ut : UserTask) (imei start : ℕ) (frame : Bytes) : Type 0 where
  pub task_id : field frame 4 8 4 ≡ ut.user_task_id
  pub imei_is : field frame 8 12 4 ≡ imei
  pub start_is : field frame 15 19 4 ≡ start
  pub end_is : field frame 22 26 4 ≡ or_zero ut.end_site_code

module _ (ut : UserTask) (imei start d e : ℕ) (start_known : ut.start_site_code ≡ some start)
    (start_digit : str_of ut.start_handel ≡ (48 + d) ∷ []) (d_fits : d < 10)
    (end_digit : str_or_zero ut.end_handel ≡ (48 + e) ∷ []) (e_fits : e < 10) where
  append_task_msg_text :
      append_task_msg ut imei []
      ≡ get_crc_to_send
          (codes "40BF807F" ++ print_hex_string (task_content ut imei start d e))
          password
  unfolding append_task_msg append_way_points_task_msg join_texts int_to_hex without_spaces
  append_task_msg_text = rw start_known (ap (λ (t : Text). get_crc_to_send t password) texts)
    where
      texts :
          join_texts (
            codes "40BF807F"
            ∷ print_hex_string (int_to_bytes ut.user_task_id 4)
            ∷ print_hex_string (int_to_bytes imei 4)
            ∷ codes "B2"
            ∷ print_hex_string (int_to_bytes 14 2)
            ∷ print_hex_string (int_to_bytes start 4)
            ∷ (codes "0" ++ str_of ut.start_handel)
            ∷ print_hex_string (int_to_bytes (or_zero ut.start_storage_height) 2)
            ∷ print_hex_string (int_to_bytes (or_zero ut.end_site_code) 4)
            ∷ (codes "0" ++ str_or_zero ut.end_handel)
            ∷ print_hex_string (int_to_bytes (or_zero ut.end_storage_height) 2)
            ∷ []
            ∷ [])
          ≡ codes "40BF807F" ++ print_hex_string (task_content ut imei start d e)
      texts =
          rw (start_digit, end_digit)
            (simp (print-append, digit_text d d_fits, digit_text e e_fits)
              (unfold print_hex_string print_hex_byte hex_digit int_to_bytes in refl))

  fields :
      ut.user_task_id < 2 ^ 32
      → imei < 2 ^ 32
      → start < 2 ^ 32
      → or_zero ut.end_site_code < 2 ^ 32
      → Carries ut imei start (sent_frame (task_content ut imei start d e) (codes "123456789"))
  unfolding split_byte int_to_bytes
  fields a b c g = record {
    task_id = bytes_to_int-int_to_bytes ut.user_task_id 4 (omega arith) (omega arith) a;
    imei_is = bytes_to_int-int_to_bytes imei 4 (omega arith) (omega arith) b;
    start_is = bytes_to_int-int_to_bytes start 4 (omega arith) (omega arith) c;
    end_is = bytes_to_int-int_to_bytes (or_zero ut.end_site_code) 4 (omega arith) (omega arith) g;
  }

  -- For a start site that is known, handels that are one digit each and no way points, the text of
  -- the task frame reads back as a frame that passes the check under the password, and in it stand
  -- the task's id, the vehicle, the start site and the end site, where each is below 2 ^ 32.
  pub append_task_msg-Carries :
      ut.user_task_id < 2 ^ 32
      → imei < 2 ^ 32
      → start < 2 ^ 32
      → or_zero ut.end_site_code < 2 ^ 32
      → (t : Text) × (frame : Bytes) × (append_task_msg ut imei [] ≡ ok t)
        × (hex_string_to_bytes (some t) ≡ ok (some frame))
        × (checked_crc frame password ≡ true)
        × Carries ut imei start frame
  append_task_msg-Carries a b c g =
      let (t, made, read, passed) =
        checked_crc-get_crc_to_send (task_content ut imei start d e) b'1' (codes "23456789") bytes
          (omega arith) in
      (
        t,
        sent_frame (task_content ut imei start d e) (codes "123456789"),
        append_task_msg_text ∙ made,
        read,
        passed,
        fields a b c g,
      )
    where
      bytes : All IsByte (task_content ut imei start d e)
      bytes = unfold int_to_bytes in omega (arith, d_fits, e_fits)
