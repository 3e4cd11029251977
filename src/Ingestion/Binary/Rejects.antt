-- ===== src/Ingestion/Binary/Rejects.antt =====
-- What the parser of binary frames refuses.
use mathlib.Core.List.{append_assoc}
use native.Mathlib.Nat.{add-zero}
use green_lab.Prelude.{
  ℕ, ◌+◌, ◌-◌, ◌*◌, ◌≡◌, ◌≢◌, ap, sym, ◌∙◌, String, true, false, none, some, List, [], ◌∷◌, ◌++◌,
  length, length-append, get_or, get_or-append, get_or_elsewhere, take, drop, take-append, ltb,
  ◌==◌, ==_refl, ==_ne, arith, ◌⊎◌,
}
use green_lab.Ingestion.Domain.{
  Error, crc_mismatch, device_id_mismatch, invalid_frame_length, ok, err,
}
use green_lab.Ingestion.Batch.{CompactBatch}
use green_lab.Ingestion.Crc.{crc16_ccitt_false}
use green_lab.Ingestion.Crc.Detects.{IsByte, crc16_detects_byte}
use green_lab.Ingestion.Binary.{uint16_at, ones_count, validate_dev_id, parse}

-- The tests that an accepted body has passed.
pub record Accepted (auth_device_id : String) (body : List ℕ) : Type 0 where
  pub length_fits : length body ≡ 12 + ones_count 8 (get_or body 9 0) * 2
  pub crc_fits : crc16_ccitt_false (take (length body - 2) body) ≡ uint16_at body (length body - 2)
  pub device_fits : validate_dev_id (take 4 (drop 1 body)) auth_device_id ≡ none

pub parse-Accepted :
    {V : Type 0} (to_float : ℕ → V) (auth_device_id : String) (body : List ℕ)
    {batch : CompactBatch V}
    → parse to_float auth_device_id body ≡ ok batch
    → Accepted auth_device_id body
unfolding parse
parse-Accepted to_float auth body h = ground arith

-- The two bytes at the end, and what stands before them.
module _ (payload : List ℕ) (c0 c1 : ℕ) where
  trailer_cut : length (payload ++ c0 ∷ c1 ∷ []) - 2 ≡ length payload
  trailer_cut = omega (arith, length-append {0} payload (c0 ∷ c1 ∷ []))

  trailer_payload : take (length (payload ++ c0 ∷ c1 ∷ []) - 2) (payload ++ c0 ∷ c1 ∷ []) ≡ payload
  trailer_payload = rw trailer_cut (take-append payload (c0 ∷ c1 ∷ []))

  trailer_crc :
      uint16_at (payload ++ c0 ∷ c1 ∷ []) (length (payload ++ c0 ∷ c1 ∷ []) - 2) ≡ c0 * 256 + c1
  trailer_crc =
      let here : get_or (payload ++ c0 ∷ c1 ∷ []) (length payload) 0 ≡ c0 =
        rw (← add-zero (length payload)) (get_or-append payload (c0 ∷ c1 ∷ []) 0 0) in
      rw (trailer_cut, here, get_or-append payload (c0 ∷ c1 ∷ []) 1 0)

-- A body of the right length with another checksum.
parse_bad_crc :
    {V : Type 0} (to_float : ℕ → V) (auth : String) (body : List ℕ)
    → length body ≡ 12 + ones_count 8 (get_or body 9 0) * 2
    → crc16_ccitt_false (take (length body - 2) body) ≢ uint16_at body (length body - 2)
    → parse to_float auth body ≡ err crc_mismatch
unfolding parse
parse_bad_crc to_float auth body hl hc =
    let long : ltb (length body) 12 ≡ false = ground arith in
    let exact : (length body == 12 + ones_count 8 (get_or body 9 0) * 2) ≡ true =
      rw hl (==_refl _) in
    rw (long, exact, ==_ne _ _ hc)

-- One corrupted byte, other than the field mask and the checksum's own bytes, is always noticed:
-- if a frame is accepted, the frame with that byte changed is refused with the checksum error.
-- `pre` and `post` are what stands before and after the byte; the byte is not the tenth.
pub parse_corrupted :
    {V : Type 0} (to_float : ℕ → V) (auth_device_id : String) (pre post : List ℕ) (a b c0 c1 : ℕ)
    {batch : CompactBatch V}
    → IsByte a
    → IsByte b
    → a ≢ b
    → length pre ≢ 9
    → parse to_float auth_device_id (pre ++ a ∷ (post ++ c0 ∷ c1 ∷ [])) ≡ ok batch
    → parse to_float auth_device_id (pre ++ b ∷ (post ++ c0 ∷ c1 ∷ [])) ≡ err crc_mismatch
parse_corrupted to_float auth pre post a b c0 c1 ha hb ne elsewhere h =
    let tail = c0 ∷ c1 ∷ [] in
    let old : pre ++ a ∷ (post ++ tail) ≡ (pre ++ a ∷ post) ++ tail = rw append_assoc in
    let new : pre ++ b ∷ (post ++ tail) ≡ (pre ++ b ∷ post) ++ tail = rw append_assoc in
    let valid = parse-Accepted to_float auth (pre ++ a ∷ (post ++ tail)) h in
    let crc : crc16_ccitt_false (pre ++ a ∷ post) ≡ c0 * 256 + c1 =
      sym (ap crc16_ccitt_false (trailer_payload (pre ++ a ∷ post) c0 c1))
      ∙ (rw old at valid.crc_fits)
      ∙ trailer_crc (pre ++ a ∷ post) c0 c1 in
    let mask = get_or_elsewhere pre (post ++ tail) a b 9 0 elsewhere in
    parse_bad_crc to_float auth (pre ++ b ∷ (post ++ tail))
      (rw (← mask) (
        omega (
          arith,
          valid.length_fits,
          length-append {0} pre (a ∷ (post ++ tail)),
          length-append {0} pre (b ∷ (post ++ tail)),
        )))
      (rw (new, trailer_payload (pre ++ b ∷ post) c0 c1, trailer_crc (pre ++ b ∷ post) c0 c1)
        (λ e. crc16_detects_byte pre post a b ha hb ne (crc ∙ sym e)))

dev_id_error :
    (dev_id : List ℕ) (auth : String) (e : Error)
    → validate_dev_id dev_id auth ≡ some e
    → e ≡ device_id_mismatch
unfolding validate_dev_id
dev_id_error dev_id auth e h = ground arith

-- A refused body is refused with one of the three errors of a bad frame.
pub parse_error :
    {V : Type 0} (to_float : ℕ → V) (auth_device_id : String) (body : List ℕ) {e : Error}
    → parse to_float auth_device_id body ≡ err e
    → (e ≡ invalid_frame_length) ⊎ ((e ≡ crc_mismatch) ⊎ (e ≡ device_id_mismatch))
unfolding parse
parse_error to_float auth body {e} h = ground (arith, dev_id_error (take 4 (drop 1 body)) auth e)
