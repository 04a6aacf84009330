-- ===== src/Tcp/Checked.antt =====
-- app/tcp/byte_process.py: heads and ends of frames, the CRC that is put into a frame to send and
-- the check of it. The password's characters are encoded as latin-1.
pub mod Send
use ygvcs_py.Prelude.{
  ℕ, ◌+◌, ◌-◌, Bool, true, false, ◌&&◌, ◌||◌, Option, none, some, List, [], ◌∷◌, ◌++◌, ltb, ◌==◌,
  if◌then◌else◌, Text, Bytes, codes, text_eq, length, take, drop,
}
use ygvcs_py.Prelude.Raises.{Raises, ok, raised, except, ◌>>=◌}
use ygvcs_py.Tcp.Bytes.{
  hex_string_to_bytes, print_hex_string, int_to_bytes, bytes_to_int, split_byte, without_spaces,
}
use ygvcs_py.Tcp.Crc.{crc_16_ccitt_false}

abbrev pub frame_head : Bytes
frame_head = 64 ∷ 0xbf ∷ 0x80 ∷ 127 ∷ []

abbrev pub frame_recv_head : Bytes
frame_recv_head = 32 ∷ 0xbf ∷ 64 ∷ 127 ∷ []

abbrev pub frame_recv_end : Bytes
frame_recv_end = 0x50 ∷ 0xaf ∷ 0xa0 ∷ 0x5f ∷ []

unfoldable pub checked_send_frame : Option Bytes → Bool
checked_send_frame none = false
checked_send_frame (some reqb) = ltb 9 (length reqb) && text_eq (take 4 reqb) frame_head

unfoldable pub checked_recv_frame : Option Bytes → Bool
checked_recv_frame none = false
checked_recv_frame (some reqb) =
    ltb 9 (length reqb)
    && text_eq (take 4 reqb) frame_recv_head
    && text_eq (drop (length reqb - 4) reqb) frame_recv_end

-- `s.encode("latin-1")`, which raises on a character beyond the first 256.
unfoldable pub encode_latin_1 : Text → Raises Bytes
encode_latin_1 [] = ok []
encode_latin_1 (c ∷ s) = do rest ← encode_latin_1 s; (if ltb c 256 then ok (c ∷ rest) else raised)

-- `c in s`
unfoldable pub has_char : ℕ → Text → Bool
has_char c [] = false
has_char c (x ∷ s) = x == c || has_char c s

-- `s.replace("\n", "")`
unfoldable pub without_newlines : Text → Text
without_newlines [] = []
without_newlines (c ∷ s) = let rest = without_newlines s in if c == 10 then rest else c ∷ rest

-- `e or b""`
abbrev pub or_empty : Option Bytes → Bytes
or_empty none = []
or_empty (some b) = b

-- Newlines go only where there is a space too.
unfoldable pub cleaned : Text → Text
unfolding has_char without_newlines
cleaned hex_str =
    if has_char b' ' hex_str then without_newlines (without_spaces hex_str) else hex_str

unfoldable pub get_crc_to_send : Text → Option Text → Raises Text
unfolding cleaned encode_latin_1
get_crc_to_send hex_str none = do
  bs ← hex_string_to_bytes (some (drop 8 (cleaned hex_str)))
  let crc = crc_16_ccitt_false (or_empty bs)
  ok (hex_str ++ (codes " " ++ (print_hex_string (int_to_bytes crc 2) ++ codes "  50AFA05F")))
get_crc_to_send hex_str (some []) = ok (hex_str ++ codes "0000 50AFA05F")
get_crc_to_send hex_str (some (c ∷ pasd)) = do
  bs ← hex_string_to_bytes (some (drop 8 (cleaned hex_str)))
  bs2 ← encode_latin_1 (c ∷ pasd)
  let crc = crc_16_ccitt_false (or_empty bs ++ bs2)
  ok (hex_str ++ (print_hex_string (int_to_bytes crc 2) ++ codes "  50AFA05F"))

-- The content that the CRC is taken of: `if password:` is false of `None` and of "".
unfoldable pub with_password : Bytes → Option Text → Raises Bytes
unfolding encode_latin_1
with_password cont none = ok cont
with_password cont (some []) = ok cont
with_password cont (some (c ∷ pasd)) = do bs ← encode_latin_1 (c ∷ pasd); ok (cont ++ bs)

unfoldable pub checked_crc : Bytes → Option Text → Bool
unfolding checked_send_frame checked_recv_frame with_password
checked_crc reqb password =
    if checked_send_frame (some reqb) || checked_recv_frame (some reqb)
    then except
        (do
          let crc_old = bytes_to_int (split_byte (some reqb) (length reqb - 6) (length reqb - 4)) 2
          cont ← with_password (or_empty (split_byte (some reqb) 4 (length reqb - 6))) password
          ok (crc_old == crc_16_ccitt_false cont))
        false
    else false
