-- ===== src/Ingestion/Crc.antt =====
-- crc16CCITTFalse of services/ingestion/internal/transport/http/deserialize_binary.go.
-- A uint16 is a number below 2 ^ 16; the shift wraps.
pub mod Detects
use green_lab.Prelude.{
  ℕ, zero, suc, ◌*◌, ◌%◌, ◌^◌, bit_and, bit_xor, List, [], ◌∷◌, not, ◌==◌, if◌then◌else◌,
}

-- One round of the inner loop.
unfoldable pub shift : ℕ → ℕ
shift crc =
    if not (bit_and crc 0x8000 == 0) then bit_xor (crc * 2 % 2 ^ 16) 0x1021 else crc * 2 % 2 ^ 16

unfoldable pub shifts : ℕ → ℕ → ℕ
shifts zero crc = crc
shifts (suc n) crc = shifts n (shift crc)

-- One round of the outer loop: `crc ^= uint16(b) << 8`, then eight shifts.
unfoldable pub crc_byte : ℕ → ℕ → ℕ
crc_byte crc b = shifts 8 (bit_xor crc (b * 256 % 2 ^ 16))

unfoldable pub crc_from : ℕ → List ℕ → ℕ
crc_from crc [] = crc
crc_from crc (b ∷ bs) = crc_from (crc_byte crc b) bs

unfoldable pub crc16_ccitt_false : List ℕ → ℕ
unfolding crc_from crc_byte shifts shift
crc16_ccitt_false payload = crc_from 0xFFFF payload
