-- ===== src/Ingestion/Binary/RoundTrip.antt =====
-- Parsing a frame that was laid out as documented gives back its parts.
use native.Mathlib.Nat.{pow-suc, div-div-eq-div-mul, one-le-pow, add-zero}
use native.Mathlib.Numerals.{add-one}
use mathlib.Core.List.{append_assoc, append-nil}
use green_lab.Prelude.{
  ℕ, zero, suc, ◌+◌, ◌-◌, ◌*◌, ◌/◌, ◌%◌, ◌^◌, ◌<◌, ◌≡◌, refl, sym, ◌∙◌, ap, bit_and, String, true,
  false, not, Option, none, some, List, [], ◌∷◌, ◌++◌, length, length-append, get_or, get_or-append,
  take, take-append, drop, All, ◌==◌, ==_refl, ltb, arith,
}
use green_lab.Prelude.Bits.{bit_and-two_pow}
use green_lab.Ingestion.Domain.{second, ok}
use green_lab.Ingestion.Crc.{crc16_ccitt_false}
use green_lab.Ingestion.Crc.Detects.{crc16-lt}
use green_lab.Ingestion.Binary.{
  uint16_at, uint32_at, ones_count, validate_dev_id, decode_values, parse,
}
use green_lab.Ingestion.Binary.Layout.{
  big_endian16, big_endian32, field_mask, value_bytes, frame_payload, frame, slot_fields, Fits,
}

ones_count-field_mask :
    (slots : List (Option ℕ)) (n : ℕ)
    → length slots ≡ n
    → ones_count n (field_mask slots) * 2 ≡ length (value_bytes slots)
unfolding ones_count field_mask value_bytes
ones_count-field_mask [] zero h = refl
ones_count-field_mask [] (suc n) h = absurd (omega arith)
ones_count-field_mask (s ∷ slots) zero h = absurd (omega arith)
ones_count-field_mask (none ∷ slots) (suc n) h =
    let half : field_mask slots * 2 / 2 ≡ field_mask slots = omega arith in
    rw half (omega (arith, ones_count-field_mask slots n (omega arith)))
ones_count-field_mask (some v ∷ slots) (suc n) h =
    let half : (field_mask slots * 2 + 1) / 2 ≡ field_mask slots = omega arith in
    rw half (omega (arith, ones_count-field_mask slots n (omega arith)))

uint16_at-append :
    (pre post : List ℕ) (k v : ℕ)
    → k ≡ length pre
    → v < 2 ^ 16
    → uint16_at (pre ++ (big_endian16 v ++ post)) k ≡ v
uint16_at-append pre post k v h fits =
    let here : get_or (pre ++ (big_endian16 v ++ post)) k 0 ≡ v / 256 =
      rw (h, ← add-zero (length pre)) (get_or-append pre (big_endian16 v ++ post) 0 0) in
    let next : get_or (pre ++ (big_endian16 v ++ post)) (k + 1) 0 ≡ v % 256 =
      rw h (get_or-append pre (big_endian16 v ++ post) 1 0) in
    rw (here, next) (omega arith)

-- The test of bit `i`, when the mask shifted by `i` is known.
bit_clear : (mask i m : ℕ) → mask / 2 ^ i ≡ m → m % 2 ≡ 0 → not (bit_and mask (2 ^ i) == 0) ≡ false
bit_clear mask i m h e =
    let digit : mask / 2 ^ i % 2 ≡ 0 = omega arith in
    let gone : bit_and mask (2 ^ i) ≡ 0 = bit_and-two_pow i mask ∙ rw digit (omega arith) in rw gone

bit_set : (mask i m : ℕ) → mask / 2 ^ i ≡ m → m % 2 ≡ 1 → not (bit_and mask (2 ^ i) == 0) ≡ true
bit_set mask i m h e =
    let digit : mask / 2 ^ i % 2 ≡ 1 = omega arith in
    let kept : bit_and mask (2 ^ i) ≡ 2 ^ i = bit_and-two_pow i mask ∙ rw digit (omega arith) in
    rw kept (ground (arith, one-le-pow i 2))

shift_mask : (mask i : ℕ) → mask / 2 ^ (i + 1) ≡ mask / 2 ^ i / 2
shift_mask mask i =
    let grown : 2 ^ (i + 1) ≡ 2 ^ i * 2 = rw add-one (omega (arith, pow-suc 2 i)) in
    rw grown (sym (div-div-eq-div-mul mask (2 ^ i) 2))

module _ {V : Type 0} (to_float : ℕ → V) where
  -- Over a body whose values from `off` on are those of the slots left.
  decode_values-value_bytes :
      (slots : List (Option ℕ)) (mask n i off : ℕ) (body pre post : List ℕ)
      → length slots ≡ n
      → mask / 2 ^ i ≡ field_mask slots
      → body ≡ pre ++ (value_bytes slots ++ post)
      → off ≡ length pre
      → All Fits slots
      → decode_values to_float body mask n i off ≡ slot_fields to_float i slots
  unfolding decode_values field_mask value_bytes slot_fields
  decode_values-value_bytes [] mask zero i off body pre post hn hm hb ho hf = refl
  decode_values-value_bytes [] mask (suc n) i off body pre post hn hm hb ho hf =
      absurd (omega arith)
  decode_values-value_bytes (s ∷ slots) mask zero i off body pre post hn hm hb ho hf =
      absurd (omega arith)
  decode_values-value_bytes (none ∷ slots) mask (suc n) i off body pre post hn hm hb ho hf =
      rw (bit_clear mask i (field_mask slots * 2) hm (omega arith)) (
        decode_values-value_bytes slots mask n (i + 1) off body pre post (omega arith)
          (shift_mask mask i ∙ omega arith) hb ho hf.1)
  decode_values-value_bytes (some v ∷ slots) mask (suc n) i off body pre post hn hm hb ho hf =
      let here : uint16_at body off ≡ v =
        rw (hb, append_assoc) (uint16_at-append pre (value_bytes slots ++ post) off v ho hf.0) in
      rw (bit_set mask i (field_mask slots * 2 + 1) hm (omega arith), here)
        (ap (λ (t : List (ℕ × V)). (i + 1, to_float v) ∷ t)
          (decode_values-value_bytes slots mask n (i + 1) (off + 2) body (pre ++ big_endian16 v)
            post (omega arith) (shift_mask mask i ∙ omega arith) (hb ∙ simp append_assoc)
            (omega (arith, length-append {0} pre (big_endian16 v))) hf.1))

uint32_big_endian :
    (t : ℕ)
    → t < 2 ^ 32
    → (t / 65536 / 256 * 256 + t / 65536 % 256) * 65536 + (t % 65536 / 256 * 256 + t % 65536 % 256)
      ≡ t
uint32_big_endian t h = omega arith

length-frame_payload :
    (ver d0 d1 d2 d3 ts : ℕ) (slots : List (Option ℕ))
    → length (frame_payload ver (d0 ∷ d1 ∷ d2 ∷ d3 ∷ []) ts slots) ≡ 10 + length (value_bytes slots)
unfolding frame_payload
length-frame_payload ver d0 d1 d2 d3 ts slots = omega arith

length-frame :
    (ver d0 d1 d2 d3 ts : ℕ) (slots : List (Option ℕ))
    → length (frame ver (d0 ∷ d1 ∷ d2 ∷ d3 ∷ []) ts slots) ≡ 12 + length (value_bytes slots)
unfolding frame
length-frame ver d0 d1 d2 d3 ts slots =
    let payload = frame_payload ver (d0 ∷ d1 ∷ d2 ∷ d3 ∷ []) ts slots in
    omega (
      arith,
      length-append {0} payload (big_endian16 (crc16_ccitt_false payload)),
      length-frame_payload ver d0 d1 d2 d3 ts slots,
    )

-- The length check, the checksum check and the two slices that they read.
frame_crc :
    (ver d0 d1 d2 d3 ts : ℕ) (slots : List (Option ℕ))
    → let body = frame ver (d0 ∷ d1 ∷ d2 ∷ d3 ∷ []) ts slots in
      (crc16_ccitt_false (take (length body - 2) body) == uint16_at body (length body - 2)) ≡ true
unfolding frame
frame_crc ver d0 d1 d2 d3 ts slots =
    let payload = frame_payload ver (d0 ∷ d1 ∷ d2 ∷ d3 ∷ []) ts slots in
    let crc = crc16_ccitt_false payload in
    let body = payload ++ big_endian16 crc in
    let cut : length body - 2 ≡ length payload =
      omega (arith, length-append {0} payload (big_endian16 crc)) in
    let got : uint16_at body (length payload) ≡ crc =
      rw (← append-nil (big_endian16 crc))
        (uint16_at-append payload [] (length payload) crc refl (crc16-lt payload)) in
    rw (cut, take-append payload (big_endian16 crc), got) (==_refl crc)

parse_accepts :
    {V : Type 0} (to_float : ℕ → V) (auth : String) (body : List ℕ) (mask : ℕ)
    → get_or body 9 0 ≡ mask
    → length body ≡ 12 + ones_count 8 mask * 2
    → (crc16_ccitt_false (take (length body - 2) body) == uint16_at body (length body - 2)) ≡ true
    → validate_dev_id (take 4 (drop 1 body)) auth ≡ none
    → parse to_float auth body
      ≡ ok (record {
        field_values = decode_values to_float body mask 8 0 10;
        timestamp = some (uint32_at body 5 * second);
        td_offsets = [];
        schema_version = 0;
        device_id = auth;
      })
unfolding parse
parse_accepts to_float auth body mask hm hl hc hv =
    let long : ltb (length body) 12 ≡ false = ground arith in
    let exact : (length body == 12 + ones_count 8 mask * 2) ≡ true = rw hl (==_refl _) in
    rw (long, hm, exact, hc, hv)

-- Whatever the version, the device, the second and the slots, parsing the documented frame on
-- behalf of that device gives the fields of the slots, numbered from 1, and the instant of that
-- second.
pub parse-frame :
    {V : Type 0} (to_float : ℕ → V) (auth_device_id : String) (ver d0 d1 d2 d3 ts : ℕ)
    (slots : List (Option ℕ))
    → validate_dev_id (d0 ∷ d1 ∷ d2 ∷ d3 ∷ []) auth_device_id ≡ none
    → ts < 2 ^ 32
    → length slots ≡ 8
    → All Fits slots
    → parse to_float auth_device_id (frame ver (d0 ∷ d1 ∷ d2 ∷ d3 ∷ []) ts slots)
      ≡ ok (record {
        field_values = slot_fields to_float 0 slots;
        timestamp = some (ts * second);
        td_offsets = [];
        schema_version = 0;
        device_id = auth_device_id;
      })
parse-frame to_float auth ver d0 d1 d2 d3 ts slots known ht hn hf =
    let payload = frame_payload ver (d0 ∷ d1 ∷ d2 ∷ d3 ∷ []) ts slots in
    let body = frame ver (d0 ∷ d1 ∷ d2 ∷ d3 ∷ []) ts slots in
    let tail = big_endian16 (crc16_ccitt_false payload) in
    let header = ver ∷ d0 ∷ d1 ∷ d2 ∷ d3 ∷ (big_endian32 ts ++ field_mask slots ∷ []) in
    let whole : body ≡ header ++ (value_bytes slots ++ tail) = unfold frame frame_payload in refl in
    let mask_there : get_or body 9 0 ≡ field_mask slots = unfold frame frame_payload in refl in
    let seconds : uint32_at body 5 ≡ ts = unfold frame frame_payload in uint32_big_endian ts ht in
    let values : decode_values to_float body (field_mask slots) 8 0 10
        ≡ slot_fields to_float 0 slots =
      decode_values-value_bytes to_float slots (field_mask slots) 8 0 10 body header tail hn
        (omega arith) whole refl hf in
    parse_accepts to_float auth body (field_mask slots) mask_there
      (omega (arith, length-frame ver d0 d1 d2 d3 ts slots, ones_count-field_mask slots 8 hn))
      (frame_crc ver d0 d1 d2 d3 ts slots) (unfold frame frame_payload in known)
    ∙ rw (values, seconds)
