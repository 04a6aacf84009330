-- ===== src/Tcp/Constants.antt =====
-- app/tcp/constants.py and app/tcp/flags.py: the tables that other code indexes.
use ygvcs_py.Prelude.{ℕ, none, some, List, [], ◌∷◌, String, Text, codes, get_elem?}

-- FUN_CODES
abbrev pub fun_codes : List String
fun_codes =
    "03" ∷ "04" ∷ "0D" ∷ "0E" ∷ "0B" ∷ "12" ∷ "06" ∷ "07" ∷ "05" ∷ "09" ∷ "08" ∷ "1E" ∷ "1A" ∷ "FE"
    ∷ "20" ∷ "21" ∷ "11" ∷ "23" ∷ "22" ∷ "24" ∷ "13" ∷ "28" ∷ "29" ∷ "30" ∷ "31" ∷ "32" ∷ "35"
    ∷ "0A" ∷ "36" ∷ "50" ∷ "51" ∷ "49" ∷ "1B" ∷ "1C" ∷ "52" ∷ "19" ∷ "56" ∷ "54" ∷ "55" ∷ "57"
    ∷ "58" ∷ "59" ∷ "60" ∷ "61" ∷ "1D" ∷ "1C" ∷ "1F" ∷ "62" ∷ "63" ∷ "64" ∷ "65" ∷ "66" ∷ "40"
    ∷ "41" ∷ "42" ∷ "43" ∷ "44" ∷ "45" ∷ "46" ∷ "47" ∷ "48" ∷ "53" ∷ "67" ∷ "68" ∷ "70" ∷ "71"
    ∷ "72" ∷ "73" ∷ "74" ∷ "A8" ∷ "A9" ∷ "76" ∷ "77" ∷ "78" ∷ "01" ∷ "79" ∷ "80" ∷ "81" ∷ "82"
    ∷ "83" ∷ "84" ∷ "85" ∷ "C0" ∷ "87" ∷ "C1" ∷ "C2" ∷ "C3" ∷ "86" ∷ "89" ∷ "90" ∷ "91" ∷ "95"
    ∷ "97" ∷ "B2" ∷ "B3" ∷ []

-- FUN_LENTHS
abbrev pub fun_lengths : List String
fun_lengths =
    "01" ∷ "06" ∷ "06" ∷ "00" ∷ "00" ∷ "07" ∷ "가변（0x（4n+5））" ∷ "09" ∷ "0F" ∷ "01" ∷ "0xn" ∷ "0xn"
    ∷ "04" ∷ "01" ∷ "01" ∷ "01" ∷ "04" ∷ "01" ∷ "01" ∷ "01" ∷ "01" ∷ "23" ∷ "30" ∷ "35" ∷ "07"
    ∷ "0A" ∷ "35" ∷ "0D" ∷ "07" ∷ "0001" ∷ "5*n" ∷ "n" ∷ "n" ∷ "n" ∷ "00" ∷ "19" ∷ "00" ∷ "01"
    ∷ "04" ∷ "01" ∷ "01" ∷ "01" ∷ "01" ∷ "01" ∷ "04" ∷ "00" ∷ "02" ∷ "01" ∷ "00" ∷ "05" ∷ "00"
    ∷ "00" ∷ "01" ∷ "01" ∷ "01" ∷ "55" ∷ "56" ∷ "57" ∷ "58" ∷ "59" ∷ "60" ∷ "61" ∷ "62" ∷ "63"
    ∷ "64" ∷ "65" ∷ "66" ∷ "11" ∷ "00" ∷ "01" ∷ "00" ∷ "7*n" ∷ "00" ∷ "46" ∷ "01" ∷ "08" ∷ "00"
    ∷ "0A" ∷ "00" ∷ "00" ∷ "19" ∷ "0002" ∷ "05" ∷ "0003" ∷ "0001" ∷ "0001" ∷ "0001" ∷ "01" ∷ "01"
    ∷ "0D" ∷ "0001" ∷ []

-- `table[i]` for the constant places that the code names, all of which are inside.
abbrev pub at : List String → ℕ → Text
at table i = elim (get_elem? table i) [ none ↦ [] | some s ↦ codes s ]

abbrev pub code_at : ℕ → Text
code_at i = at fun_codes i

abbrev pub length_at : ℕ → Text
length_at i = at fun_lengths i
