-- ===== src/Ingestion/Crc/Detects.antt =====
-- The checksum is a uint16, and it tells apart any two payloads that differ in one byte.
use green_lab.Prelude.{
  ℕ, zero, suc, ◌*◌, ◌/◌, ◌%◌, ◌^◌, ◌<◌, ◌≡◌, ◌∙◌, sym, ◌≢◌, inl, inr, bit_xor, List, [], ◌∷◌, ◌++◌,
  Bool-cases, ltb, arith,
}
use green_lab.Prelude.Bits.{bit_xor_cancel, bit_xor_comm, bit_xor_low, bit_xor_lt, bit_and-two_pow}
use green_lab.Ingestion.Crc.{shift, shifts, crc_byte, crc_from, crc16_ccitt_false}

abbrev pub IsByte : ℕ → Type 0
IsByte b = b < 256

-- The tested bit, as arithmetic.
shift_low : (x : ℕ) → x < 2 ^ 16 → x < 32768 → shift x ≡ x * 2
unfolding shift
shift_low x h l = ground (arith, bit_and-two_pow 15 x)

shift_high : (x : ℕ) → x < 2 ^ 16 → 32768 < suc x → shift x ≡ bit_xor (x * 2 % 2 ^ 16) 0x1021
unfolding shift
shift_high x h l = ground (arith, bit_and-two_pow 15 x)

pub shift-lt : (x : ℕ) → x < 2 ^ 16 → shift x < 2 ^ 16
shift-lt x h = elim (Bool-cases (ltb x 32768)) [
  | inl l ↦ rw (shift_low x h (ground arith)) (ground arith)
  | inr g ↦
      rw (shift_high x h (ground arith))
        (bit_xor_lt 16 (x * 2 % 2 ^ 16) 0x1021 (omega arith) (omega arith))
]

-- The polynomial is odd, so the lowest bit of the result is the highest bit of the argument.
shift_parity : (x : ℕ) → x < 2 ^ 16 → shift x % 2 ≡ x / 32768
shift_parity x h = elim (Bool-cases (ltb x 32768)) [
  | inl l ↦ rw (shift_low x h (ground arith)) (ground arith)
  | inr g ↦ rw (shift_high x h (ground arith)) (ground (arith, bit_xor_low (x * 2 % 2 ^ 16) 0x1021))
]

shift_injective : (x y : ℕ) → x < 2 ^ 16 → y < 2 ^ 16 → shift x ≡ shift y → x ≡ y
shift_injective x y hx hy e =
    let same : x / 32768 ≡ y / 32768 = omega (arith, shift_parity x hx, shift_parity y hy) in
    elim (Bool-cases (ltb x 32768)) [
      | inl l ↦ ground (arith, shift_low x hx, shift_low y hy)
      | inr g ↦
          let lows : x * 2 % 2 ^ 16 ≡ y * 2 % 2 ^ 16 =
            bit_xor_cancel (x * 2 % 2 ^ 16) (y * 2 % 2 ^ 16) 0x1021
              (sym (shift_high x hx (ground arith)) ∙ e ∙ shift_high y hy (ground arith)) in
          ground arith
    ]

shifts-lt : (n x : ℕ) → x < 2 ^ 16 → shifts n x < 2 ^ 16
unfolding shifts
shifts-lt zero x h = h
shifts-lt (suc n) x h = shifts-lt n (shift x) (shift-lt x h)

shifts_injective : (n x y : ℕ) → x < 2 ^ 16 → y < 2 ^ 16 → shifts n x ≡ shifts n y → x ≡ y
unfolding shifts
shifts_injective zero x y hx hy e = e
shifts_injective (suc n) x y hx hy e =
    shift_injective x y hx hy
      (shifts_injective n (shift x) (shift y) (shift-lt x hx) (shift-lt y hy) e)

xor_byte-lt : (crc b : ℕ) → crc < 2 ^ 16 → bit_xor crc (b * 256 % 2 ^ 16) < 2 ^ 16
xor_byte-lt crc b h = bit_xor_lt 16 crc (b * 256 % 2 ^ 16) h (omega arith)

pub crc_byte-lt : (crc b : ℕ) → crc < 2 ^ 16 → crc_byte crc b < 2 ^ 16
unfolding crc_byte
crc_byte-lt crc b h = shifts-lt 8 _ (xor_byte-lt crc b h)

-- Injective in the register.
crc_byte_register : (x y b : ℕ) → x < 2 ^ 16 → y < 2 ^ 16 → crc_byte x b ≡ crc_byte y b → x ≡ y
unfolding crc_byte
crc_byte_register x y b hx hy e =
    bit_xor_cancel x y (b * 256 % 2 ^ 16)
      (shifts_injective 8 _ _ (xor_byte-lt x b hx) (xor_byte-lt y b hy) e)

-- Injective in the byte.
crc_byte_byte :
    (crc a b : ℕ) → crc < 2 ^ 16 → IsByte a → IsByte b → crc_byte crc a ≡ crc_byte crc b → a ≡ b
unfolding crc_byte
crc_byte_byte crc a b h ha hb e =
    let inner : bit_xor crc (a * 256 % 2 ^ 16) ≡ bit_xor crc (b * 256 % 2 ^ 16) =
      shifts_injective 8 _ _ (xor_byte-lt crc a h) (xor_byte-lt crc b h) e in
    let shifted : a * 256 % 2 ^ 16 ≡ b * 256 % 2 ^ 16 =
      bit_xor_cancel (a * 256 % 2 ^ 16) (b * 256 % 2 ^ 16) crc
        (bit_xor_comm (a * 256 % 2 ^ 16) crc ∙ inner ∙ bit_xor_comm crc (b * 256 % 2 ^ 16)) in
    omega arith

crc_from-lt : (crc : ℕ) (bs : List ℕ) → crc < 2 ^ 16 → crc_from crc bs < 2 ^ 16
unfolding crc_from
crc_from-lt crc [] h = h
crc_from-lt crc (b ∷ bs) h = crc_from-lt (crc_byte crc b) bs (crc_byte-lt crc b h)

crc_from_register :
    (x y : ℕ) (bs : List ℕ) → x < 2 ^ 16 → y < 2 ^ 16 → crc_from x bs ≡ crc_from y bs → x ≡ y
unfolding crc_from
crc_from_register x y [] hx hy e = e
crc_from_register x y (b ∷ bs) hx hy e =
    crc_byte_register x y b hx hy (
      crc_from_register (crc_byte x b) (crc_byte y b) bs (crc_byte-lt x b hx) (crc_byte-lt y b hy)
        e)

crc_from_one_byte :
    (crc : ℕ) (pre post : List ℕ) (a b : ℕ)
    → crc < 2 ^ 16
    → IsByte a
    → IsByte b
    → crc_from crc (pre ++ a ∷ post) ≡ crc_from crc (pre ++ b ∷ post)
    → a ≡ b
unfolding crc_from
crc_from_one_byte crc [] post a b h ha hb e = crc_byte_byte crc a b h ha hb (
    crc_from_register (crc_byte crc a) (crc_byte crc b) post (crc_byte-lt crc a h)
      (crc_byte-lt crc b h) e)
crc_from_one_byte crc (p ∷ pre) post a b h ha hb e =
    crc_from_one_byte (crc_byte crc p) pre post a b (crc_byte-lt crc p h) ha hb e

-- The checksum fits a uint16.
pub crc16-lt : (payload : List ℕ) → crc16_ccitt_false payload < 2 ^ 16
unfolding crc16_ccitt_false
crc16-lt payload = crc_from-lt 0xFFFF payload (omega arith)

-- Two payloads of bytes that differ in exactly one byte, wherever it stands, have different
-- checksums.
pub crc16_detects_byte :
    (pre post : List ℕ) (a b : ℕ)
    → IsByte a
    → IsByte b
    → a ≢ b
    → crc16_ccitt_false (pre ++ a ∷ post) ≢ crc16_ccitt_false (pre ++ b ∷ post)
unfolding crc16_ccitt_false
crc16_detects_byte pre post a b ha hb ne e =
    ne (crc_from_one_byte 0xFFFF pre post a b (omega arith) ha hb e)
