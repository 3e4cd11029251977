-- ===== src/Ingestion/Binary.antt =====
-- services/ingestion/internal/transport/http/deserialize_binary.go: the parser of binary frames.
-- A byte slice is a list of numbers; `float64(raw)` is the parameter `to_float`.
pub mod Layout
pub mod RoundTrip
pub mod Rejects
pub mod Accepts
use green_lab.Prelude.{
  ℕ, zero, suc, ◌+◌, ◌-◌, ◌*◌, ◌/◌, ◌%◌, ◌^◌, bit_and, String, Bool, true, false, not, ◌&&◌, Option,
  none, some, List, [], ◌∷◌, length, get_or, take, drop, ltb, leb, ◌==◌, if◌then◌else◌,
}
use green_lab.Ingestion.Domain.{
  Time, second, Error, crc_mismatch, device_id_mismatch, invalid_frame_length, Result, ok, err,
  ◌>>◌, codes,
}
use green_lab.Ingestion.Batch.{CompactBatch}
use green_lab.Ingestion.Crc.{crc16_ccitt_false}

abbrev pub binary_frame_min_len : ℕ
binary_frame_min_len = 12

-- binary.BigEndian.Uint16(body[i : i+2])
abbrev pub uint16_at : List ℕ → ℕ → ℕ
uint16_at body i = get_or body i 0 * 256 + get_or body (i + 1) 0

-- binary.BigEndian.Uint32(body[i : i+4])
abbrev pub uint32_at : List ℕ → ℕ → ℕ
uint32_at body i = uint16_at body i * 65536 + uint16_at body (i + 2)

-- bits.OnesCount8, over the `n` bits left.
unfoldable pub ones_count : ℕ → ℕ → ℕ
ones_count zero x = 0
ones_count (suc n) x = x % 2 + ones_count n (x / 2)

-- `none` is the source's -1.
unfoldable pub hex_val : ℕ → Option ℕ
hex_val c =
    if leb b'0' c && leb c b'9'
    then some (c - b'0')
    else if leb b'a' c && leb c b'f'
    then some (c - b'a' + 10)
    else if leb b'A' c && leb c b'F'
    then some (c - b'A' + 10)
    else none

-- strings.ReplaceAll(s, "-", "")
unfoldable pub strip_hyphens : List ℕ → List ℕ
strip_hyphens [] = []
strip_hyphens (c ∷ cs) = let rest = strip_hyphens cs in if c == b'-' then rest else c ∷ rest

-- byte(hi<<4 | lo): the digits share no bit, so `|` is the sum.
hex_byte : Option ℕ → Option ℕ → Option ℕ
hex_byte (some hi) (some lo) = some (hi * 16 + lo)
hex_byte _ _ = none

cons_byte : Option ℕ → Option (List ℕ) → Option (List ℕ)
cons_byte (some b) (some bs) = some (b ∷ bs)
cons_byte _ _ = none

-- The loop over the four bytes of `expected`; `i` is its counter and `n` the rounds left.
unfoldable pub hex_bytes : ℕ → ℕ → List ℕ → Option (List ℕ)
unfolding hex_byte cons_byte hex_val
hex_bytes zero i clean = some []
hex_bytes (suc n) i clean =
    cons_byte (hex_byte (hex_val (get_or clean (i * 2) 0)) (hex_val (get_or clean (i * 2 + 1) 0)))
      (hex_bytes n (i + 1) clean)

unfoldable pub bytes_equal : List ℕ → List ℕ → Bool
bytes_equal [] [] = true
bytes_equal (a ∷ xs) (b ∷ ys) = a == b && bytes_equal xs ys
bytes_equal _ _ = false

unfoldable pub validate_dev_id : List ℕ → String → Option Error
validate_dev_id dev_id_bytes auth_device_id =
    let clean = strip_hyphens (codes auth_device_id) in
    if ltb (length clean) 8 then some device_id_mismatch else elim (hex_bytes 4 0 clean) [
      | none ↦ some device_id_mismatch
      | some expected ↦ if bytes_equal dev_id_bytes expected then none else some device_id_mismatch
    ]

module _ {V : Type 0} (to_float : ℕ → V) where
  -- The loop over the bits of FIELDMSK: `i` is its counter, `n` the rounds left.
  unfoldable pub decode_values : List ℕ → ℕ → ℕ → ℕ → ℕ → List (ℕ × V)
  decode_values body field_msk zero i value_offset = []
  decode_values body field_msk (suc n) i value_offset =
      let present = decode_values body field_msk n (i + 1) (value_offset + 2) in
      let absent = decode_values body field_msk n (i + 1) value_offset in
      if not (bit_and field_msk (2 ^ i) == 0)
      then (i + 1, to_float (uint16_at body value_offset)) ∷ present
      else absent

  unfoldable pub parse : String → List ℕ → Result (CompactBatch V)
  parse auth_device_id body =
      if ltb (length body) binary_frame_min_len
      then err invalid_frame_length
      else let field_msk = get_or body 9 0 in
        let n = ones_count 8 field_msk in
        if not (length body == binary_frame_min_len + n * 2)
        then err invalid_frame_length
        else let payload = take (length body - 2) body in
          let got_crc = uint16_at body (length body - 2) in
          if not (crc16_ccitt_false payload == got_crc)
          then err crc_mismatch
          else validate_dev_id (take 4 (drop 1 body)) auth_device_id
            >> ok (record {
              field_values = decode_values body field_msk 8 0 10;
              timestamp = some (uint32_at body 5 * second);
              td_offsets = [];
              schema_version = 0;
              device_id = auth_device_id;
            })
