-- ===== src/Examples/Wire.antt =====
-- Frames, checksums and numbers at concrete bytes.
use ygvcs_py.Prelude.{
  ◌≡◌, ◌≢◌, refl, true, false, none, some, [], ◌∷◌, ◌++◌, Text, Bytes, codes, arith, slice, All,
}
use ygvcs_py.Prelude.Raises.{ok}
use ygvcs_py.Tcp.Bytes.{hex_string_to_bytes, print_hex_string}
use ygvcs_py.Tcp.Bytes.Hex.{hex_string_to_bytes-print_hex_string}
use ygvcs_py.Tcp.Crc.{crc_16_ccitt_false, calc_crc}
use ygvcs_py.Tcp.Crc.Check.{calc_crc-eq-crc_16}
use ygvcs_py.Tcp.Crc.Detect.{crc_16_detects_flip}
use ygvcs_py.Tcp.Codec.{find, feed}
use ygvcs_py.Tcp.Codec.Stream.{after, feed-append}
use ygvcs_py.Tcp.Codec.Frames.{IsFrame, IsSendable, send_all, feed-IsFrame, feed-send_all}
use ygvcs_py.Tcp.Checked.{get_crc_to_send, checked_crc}
use ygvcs_py.Tcp.Checked.Send.{sent_frame, checked_crc-get_crc_to_send}

-- A vehicle's answer, 20 bytes.
abbrev answer : Bytes
answer =
    0x20 ∷ 0xbf ∷ 0x40 ∷ 0x7f ∷ 0 ∷ 0 ∷ 0 ∷ 9 ∷ 0 ∷ 0 ∷ 0 ∷ 5 ∷ 3 ∷ 1 ∷ 0xff ∷ 0 ∷ 0x50 ∷ 0xaf
    ∷ 0xa0 ∷ 0x5f ∷ []

answer-IsSendable : IsSendable answer
unfolding find
answer-IsSendable = record {
  end = 16;
  found = refl;
  at_end = refl;
  at_least = omega arith;
  below = omega arith;
}

feed-send_all_example :
    feed [] (send_all (answer ∷ answer ∷ [])) ≡ record { frames = answer ∷ answer ∷ []; buf = [] }
feed-send_all_example =
    feed-send_all (answer ∷ answer ∷ []) (answer-IsSendable, (answer-IsSendable, tt))

feed-append_example :
    feed [] (answer ++ 0xa0 ∷ []) ≡ after (feed [] answer) (feed (feed [] answer).buf (0xa0 ∷ []))
feed-append_example = feed-append [] answer (0xa0 ∷ [])

feed-IsFrame_example :
    All IsFrame (feed answer (0xa0 ∷ 7 ∷ [])).frames
    × (find (feed answer (0xa0 ∷ 7 ∷ [])).buf ≡ none)
feed-IsFrame_example = feed-IsFrame answer (0xa0 ∷ 7 ∷ [])

-- 0x31 and 0x30 differ in their last bit.
crc_16_detects_flip_example : crc_16_ccitt_false (0x31 ∷ []) ≢ crc_16_ccitt_false (0x30 ∷ [])
crc_16_detects_flip_example =
    crc_16_detects_flip (0x31 ∷ []) (0x30 ∷ [])
      (false ∷ false ∷ true ∷ true ∷ false ∷ false ∷ false ∷ []) [] true refl refl

calc_crc-eq-crc_16_example : calc_crc answer 4 12 ≡ ok (crc_16_ccitt_false (slice answer 4 16))
calc_crc-eq-crc_16_example = calc_crc-eq-crc_16 answer 4 12 (omega arith)

-- The check value of this CRC: of the digits 1 to 9 it is 0x29B1.
crc_of_digits : crc_16_ccitt_false (codes "123456789") ≡ 0x29b1
unfolding crc_16_ccitt_false
crc_of_digits = refl

checked_crc-get_crc_to_send_example :
    (t : Text) × (get_crc_to_send
        (codes "40BF807F" ++ print_hex_string (0 ∷ 9 ∷ 3 ∷ []))
        (some (codes "1"))
      ≡ ok t)
    × (hex_string_to_bytes (some t) ≡ ok (some (sent_frame (0 ∷ 9 ∷ 3 ∷ []) (codes "1"))))
    × (checked_crc (sent_frame (0 ∷ 9 ∷ 3 ∷ []) (codes "1")) (some (codes "1")) ≡ true)
checked_crc-get_crc_to_send_example =
    checked_crc-get_crc_to_send (0 ∷ 9 ∷ 3 ∷ []) b'1' [] (omega arith) (omega arith)

hex_string_to_bytes-print_hex_string_example :
    hex_string_to_bytes (some (print_hex_string (0x7f ∷ 0 ∷ 0xff ∷ [])))
    ≡ ok (some (0x7f ∷ 0 ∷ 0xff ∷ []))
hex_string_to_bytes-print_hex_string_example =
    hex_string_to_bytes-print_hex_string 0x7f (0 ∷ 0xff ∷ []) (omega arith)
