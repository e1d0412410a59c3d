-- ===== src/Dump/Tests.antt =====
-- A dump of "A", a newline and 255 at address 4096, with addresses of four digits.
use win_pdip.Prelude.{[], ◌∷◌, Bytes}

abbrev three_bytes : Bytes
three_bytes = b'A' ∷ 10 ∷ 255 ∷ []
