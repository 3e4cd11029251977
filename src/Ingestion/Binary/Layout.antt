-- ===== src/Ingestion/Binary/Layout.antt =====
-- The frame that the comment above `binaryFrameMinLen` describes, built from its parts:
-- VER(1) | DEVID(4) | TS(4) | FIELDMSK(1) | VALUES(N×2) | CRC16(2). A slot for each of the eight
-- fields holds its raw value, if the frame carries one.
use green_lab.Prelude.{ℕ, ◌+◌, ◌*◌, ◌/◌, ◌%◌, ◌^◌, ◌<◌, Option, none, some, List, [], ◌∷◌, ◌++◌}
use green_lab.Ingestion.Crc.{crc16_ccitt_false}

abbrev pub big_endian16 : ℕ → List ℕ
big_endian16 x = x / 256 ∷ x % 256 ∷ []

abbrev pub big_endian32 : ℕ → List ℕ
big_endian32 x = big_endian16 (x / 65536) ++ big_endian16 (x % 65536)

unfoldable pub field_mask : List (Option ℕ) → ℕ
field_mask [] = 0
field_mask (none ∷ slots) = field_mask slots * 2
field_mask (some v ∷ slots) = field_mask slots * 2 + 1

unfoldable pub value_bytes : List (Option ℕ) → List ℕ
value_bytes [] = []
value_bytes (none ∷ slots) = value_bytes slots
value_bytes (some v ∷ slots) = big_endian16 v ++ value_bytes slots

unfoldable pub frame_payload : ℕ → List ℕ → ℕ → List (Option ℕ) → List ℕ
frame_payload ver dev_id ts slots =
    ver ∷ (dev_id ++ (big_endian32 ts ++ field_mask slots ∷ value_bytes slots))

unfoldable pub frame : ℕ → List ℕ → ℕ → List (Option ℕ) → List ℕ
frame ver dev_id ts slots =
    let payload = frame_payload ver dev_id ts slots in
    payload ++ big_endian16 (crc16_ccitt_false payload)

-- The fields that the slots carry, numbered from `i + 1`.
unfoldable pub slot_fields : {V : Type 0} → (ℕ → V) → ℕ → List (Option ℕ) → List (ℕ × V)
slot_fields to_float i [] = []
slot_fields to_float i (none ∷ slots) = slot_fields to_float (i + 1) slots
slot_fields to_float i (some v ∷ slots) = (i + 1, to_float v) ∷ slot_fields to_float (i + 1) slots

-- A raw value is a uint16.
abbrev pub Fits : Option ℕ → Type 0
Fits none = Unit
Fits (some v) = v < 2 ^ 16
