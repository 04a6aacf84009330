-- ===== src/Tcp/Checked/Send.antt =====
-- A frame that `get_crc_to_send` completes passes `checked_crc` on the other side.
use ygvcs_py.Prelude.{
  ℕ, ◌+◌, ◌-◌, ◌≤◌, ◌≡◌, refl, ap, true, false, Option, none, some, [], ◌∷◌, ◌++◌, Text, Bytes,
  codes, length, drop, slice, arith, All, IsByte, All-append, length-append, drop-append,
  take-append, ==_refl,
}
use mathlib.Core.List.{append_assoc}
use ygvcs_py.Prelude.Raises.{ok}
use ygvcs_py.Tcp.Bytes.{
  hex_string_to_bytes, print_hex_string, print_hex_byte, hex_digit, int_to_bytes, split_byte,
  without_spaces,
}
use ygvcs_py.Tcp.Bytes.Hex.{
  hex_string_to_bytes-print_hex_string, hex_pairs-print, without_spaces-print,
  without_spaces-append, print-append, hex_digit_not_space,
}
use ygvcs_py.Tcp.Bytes.Ints.{int_to_bytes-IsByte, length-int_to_bytes, bytes_to_int-int_to_bytes}
use ygvcs_py.Tcp.Crc.{crc_16_ccitt_false}
use ygvcs_py.Tcp.Crc.Check.{crc_16-lt}
use ygvcs_py.Tcp.Checked.{
  frame_head, frame_recv_end, checked_send_frame, encode_latin_1, has_char, cleaned, or_empty,
  get_crc_to_send, checked_crc,
}

-- What is sent: head, content, the CRC of content and password, and the end.
abbrev pub sent_frame : Bytes → Bytes → Bytes
sent_frame content pasd =
    frame_head
    ++ (content ++ (int_to_bytes (crc_16_ccitt_false (content ++ pasd)) 2 ++ frame_recv_end))

has_char-print : (b : Bytes) → has_char b' ' (print_hex_string b) ≡ false
unfolding has_char print_hex_string print_hex_byte
has_char-print [] = refl
has_char-print (x ∷ b) = simp (hex_digit_not_space, has_char-print b)

pub encode_latin_1_ascii : (s : Text) → All IsByte s → encode_latin_1 s ≡ ok s
unfolding encode_latin_1
encode_latin_1_ascii [] h = refl
encode_latin_1_ascii (c ∷ s) h = rw (encode_latin_1_ascii s h.1) (ground arith)

-- The hex text of any byte string is read back, also that of no bytes, which reads as `None`.
or_empty-hex :
    (b : Bytes)
    → All IsByte b
    → (o : Option Bytes) × (hex_string_to_bytes (some (print_hex_string b)) ≡ ok o)
      × (or_empty o ≡ b)
unfolding hex_string_to_bytes
or_empty-hex [] h = (none, unfold print_hex_string in refl, refl)
or_empty-hex (x ∷ b) h = (some (x ∷ b), hex_string_to_bytes-print_hex_string x b h, refl)

-- What `get_crc_to_send` returns on a head and the hex text of the content.
pub get_crc_to_send_lem :
    (content : Bytes) (c : ℕ) (pasd : Text)
    → All IsByte content
    → All IsByte (c ∷ pasd)
    → get_crc_to_send (codes "40BF807F" ++ print_hex_string content) (some (c ∷ pasd))
      ≡ ok (
          (codes "40BF807F" ++ print_hex_string content)
          ++ (print_hex_string (int_to_bytes (crc_16_ccitt_false (content ++ (c ∷ pasd))) 2)
              ++ codes "  50AFA05F"))
unfolding get_crc_to_send
get_crc_to_send_lem content c pasd h k =
    let (o, read, value) = or_empty-hex content h in
    rw (encode_latin_1_ascii (c ∷ pasd) k) (rw (no_space, read) (rw value refl))
  where
    no_space :
        cleaned (codes "40BF807F" ++ print_hex_string content)
        ≡ codes "40BF807F" ++ print_hex_string content
    no_space = simp has_char-print

abbrev crc_field : Bytes → Bytes → Bytes
crc_field content pasd = int_to_bytes (crc_16_ccitt_false (content ++ pasd)) 2

split_byte_inside :
    (b : Bytes) (start end : ℕ)
    → 8 ≤ length b
    → end ≤ length b
    → split_byte (some b) start end ≡ some (slice b start end)
unfolding split_byte
split_byte_inside b start end p q = ground arith

-- The two slices that `checked_crc` reads, on a frame of known parts.
module _ (content crc : Bytes) (two : length crc ≡ 2) where
  abbrev frame : Bytes
  frame = frame_head ++ (content ++ (crc ++ frame_recv_end))

  length-frame : length frame ≡ length content + 10
  length-frame =
      omega (
        arith,
        length-append content (crc ++ frame_recv_end),
        length-append crc frame_recv_end,
        two,
      )

  content_slice : split_byte (some frame) 4 (length frame - 6) ≡ some content
  content_slice =
      rw (split_byte_inside frame 4 (length frame - 6) (omega (arith, length-frame)) (omega arith))
        (ap some (
          take-append content (crc ++ frame_recv_end) (length frame - 6 - 4)
            (omega (arith, length-frame))))

  crc_slice : split_byte (some frame) (length frame - 6) (length frame - 4) ≡ some crc
  crc_slice =
      rw
        (split_byte_inside frame (length frame - 6) (length frame - 4) (omega (arith, length-frame))
          (omega arith))
        (ap some (
          rw dropped (
            take-append crc frame_recv_end (length frame - 4 - (length frame - 6))
              (omega (arith, length-frame, two)))))
    where
      dropped : drop (length frame - 6) frame ≡ crc ++ frame_recv_end
      dropped = rw (← append_assoc frame_head content (crc ++ frame_recv_end)) (
          drop-append (frame_head ++ content) (crc ++ frame_recv_end) (length frame - 6)
            (omega (arith, length-frame)))

  send_head : checked_send_frame (some frame) ≡ true
  unfolding checked_send_frame
  send_head = ground (arith, length-frame)

-- The other side accepts it under the same password.
pub checked_crc-sent_frame :
    (content : Bytes) (c : ℕ) (pasd : Text)
    → All IsByte (c ∷ pasd)
    → checked_crc (sent_frame content (c ∷ pasd)) (some (c ∷ pasd)) ≡ true
unfolding checked_crc
checked_crc-sent_frame content c pasd k =
    let crc = crc_16_ccitt_false (content ++ (c ∷ pasd)) in
    let two : length (int_to_bytes crc 2) ≡ 2 =
      length-int_to_bytes crc 2 (omega arith) (omega arith) in
    rw (send_head content (int_to_bytes crc 2) two) (
      rw (content_slice content (int_to_bytes crc 2) two) (
        rw (crc_slice content (int_to_bytes crc 2) two) (
          rw (encode_latin_1_ascii (c ∷ pasd) k) (
            rw
              (bytes_to_int-int_to_bytes crc 2 (omega arith) (omega arith)
                (crc_16-lt (content ++ (c ∷ pasd))))
              (==_refl crc)))))

hex_of_frame :
    (content crc : Bytes)
    → All IsByte content
    → All IsByte crc
    → hex_string_to_bytes (
        some (
          (codes "40BF807F" ++ print_hex_string content)
          ++ (print_hex_string crc ++ codes "  50AFA05F")))
      ≡ ok (some (frame_head ++ (content ++ (crc ++ frame_recv_end))))
unfolding hex_string_to_bytes
hex_of_frame content crc h k = rw spaces (
    rw
      (hex_pairs-print (content ++ (crc ++ frame_recv_end)) (
        All-append IsByte content (crc ++ frame_recv_end) h
          (All-append IsByte crc frame_recv_end k (omega arith))))
      refl)
  where
    spaces :
        without_spaces (print_hex_string content ++ (print_hex_string crc ++ codes "  50AFA05F"))
        ≡ print_hex_string (content ++ (crc ++ frame_recv_end))
    spaces =
        simp (without_spaces-append, without_spaces-print, print-append)
          (unfold print_hex_string print_hex_byte hex_digit without_spaces in refl)

-- For a password of one character or more, the text that `get_crc_to_send` makes of a head and
-- the hex text of a content reads back as a frame of that content, and `checked_crc` under the
-- same password accepts the frame.
pub checked_crc-get_crc_to_send :
    (content : Bytes) (c : ℕ) (pasd : Text)
    → All IsByte content
    → All IsByte (c ∷ pasd)
    → (t : Text) × (get_crc_to_send (codes "40BF807F" ++ print_hex_string content) (some (c ∷ pasd))
        ≡ ok t)
      × (hex_string_to_bytes (some t) ≡ ok (some (sent_frame content (c ∷ pasd))))
      × (checked_crc (sent_frame content (c ∷ pasd)) (some (c ∷ pasd)) ≡ true)
checked_crc-get_crc_to_send content c pasd h k = (
  _,
  get_crc_to_send_lem content c pasd h k,
  hex_of_frame content (crc_field content (c ∷ pasd)) h
      (int_to_bytes-IsByte (crc_16_ccitt_false (content ++ (c ∷ pasd))) 2),
  checked_crc-sent_frame content c pasd k,
)
