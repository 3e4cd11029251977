-- ===== src/Ingestion/Binary/Accepts.antt =====
-- What the parser of binary frames accepts.
use green_lab.Prelude.{
  ℕ, zero, suc, ◌+◌, ◌-◌, ◌*◌, ◌/◌, ◌%◌, ◌≤◌, ◌<◌, ◌≡◌, refl, sym, ◌∙◌, ap, subst, ◌⊎◌, inl, inr,
  Bool-cases, Option-cases, true, String, none, some, List, [], ◌∷◌, ◌++◌, length, get_or, take,
  drop, ltb, leb, ◌==◌, if◌then◌else◌, arith,
}
use mathlib.Core.Option.{some-injective}
use green_lab.Ingestion.Domain.{device_id_mismatch, ok, codes}
use green_lab.Ingestion.Batch.{CompactBatch}
use green_lab.Ingestion.Crc.{crc16_ccitt_false}
use green_lab.Ingestion.Binary.{
  ones_count, hex_val, strip_hyphens, hex_bytes, bytes_equal, validate_dev_id, uint16_at, parse,
}
use green_lab.Ingestion.Binary.Rejects.{parse-Accepted}

-- `c` is the hexadecimal digit of `v`, in either case.
abbrev pub IsDigit : ℕ → ℕ → Type 0
IsDigit c v =
    ((v < 10) × (c ≡ b'0' + v))
    ⊎ ((10 ≤ v) × (v < 16) × ((c + 10 ≡ b'a' + v) ⊎ (c + 10 ≡ b'A' + v)))

abbrev pub without_hyphens : List ℕ → List ℕ
without_hyphens [] = []
without_hyphens (c ∷ cs) = (if c == b'-' then [] else c ∷ []) ++ without_hyphens cs

-- The two digits at `2 * j` spell the byte.
abbrev pub Spells : List ℕ → ℕ → ℕ → Type 0
Spells digits j b =
    IsDigit (get_or digits (j * 2) 0) (b / 16) × IsDigit (get_or digits (j * 2 + 1) 0) (b % 16)

-- The bits that are set in a byte.
abbrev pub bits_set : ℕ → ℕ
bits_set m =
    m % 2 + m / 2 % 2 + m / 4 % 2 + m / 8 % 2 + m / 16 % 2 + m / 32 % 2 + m / 64 % 2 + m / 128 % 2

pub record IsFrame (auth_device_id : String) (body : List ℕ) : Type 0 where
  pub length_fits : length body ≡ 12 + bits_set (get_or body 9 0) * 2
  pub crc_fits :
      (payload : List ℕ) × (c0 c1 : ℕ) × (body ≡ payload ++ c0 ∷ c1 ∷ [])
      × (crc16_ccitt_false payload ≡ c0 * 256 + c1)
  pub device_fits :
      (j : ℕ) → j < 4 → Spells (without_hyphens (codes auth_device_id)) j (get_or body (1 + j) 0)

ones_count-bits_set : (m : ℕ) → ones_count 8 m ≡ bits_set m
unfolding ones_count
ones_count-bits_set m = omega arith

strip_hyphens-without_hyphens : (cs : List ℕ) → strip_hyphens cs ≡ without_hyphens cs
unfolding strip_hyphens
strip_hyphens-without_hyphens [] = refl
strip_hyphens-without_hyphens (c ∷ cs) = elim (Bool-cases (c == b'-')) [
  | inl hyphen ↦ rw hyphen (strip_hyphens-without_hyphens cs)
  | inr other ↦ rw other (ap (λ rest. c ∷ rest) (strip_hyphens-without_hyphens cs))
]

-- A body is what stands before its last two bytes, and these.
last_two :
    (n : ℕ) (body : List ℕ)
    → length body ≡ n + 2
    → body ≡ take n body ++ get_or body n 0 ∷ get_or body (suc n) 0 ∷ []
last_two zero [] h = absurd (omega arith)
last_two zero (a ∷ []) h = absurd (omega arith)
last_two zero (a ∷ b ∷ []) h = refl
last_two zero (a ∷ b ∷ c ∷ rest) h = absurd (omega arith)
last_two (suc n) [] h = absurd (omega arith)
last_two (suc n) (a ∷ rest) h = ap (λ t. a ∷ t) (last_two n rest (omega arith))

hex_val-IsDigit : (c v : ℕ) → hex_val c ≡ some v → IsDigit c v
unfolding hex_val
hex_val-IsDigit c v h = elim (Bool-cases (leb b'0' c)) [
  | inl low ↦ ground arith
  | inr below ↦ ground arith
]

IsDigit-lt : (c v : ℕ) → IsDigit c v → v < 16
IsDigit-lt c v (inl h) = omega (arith, h.0)
IsDigit-lt c v (inr h) = h.1

bytes_equal_lem : (xs ys : List ℕ) → bytes_equal xs ys ≡ true → xs ≡ ys
unfolding bytes_equal
bytes_equal_lem [] [] h = refl
bytes_equal_lem [] (y ∷ ys) h = absurd (cc)
bytes_equal_lem (x ∷ xs) [] h = absurd (cc)
bytes_equal_lem (x ∷ xs) (y ∷ ys) h =
    let rest = bytes_equal_lem xs ys (ground arith) in
    let same : x ≡ y = ground arith in rw (same, rest) refl

-- A byte that two digits give.
hex_byte-Spells :
    (digits : List ℕ) (j hi lo : ℕ)
    → hex_val (get_or digits (j * 2) 0) ≡ some hi
    → hex_val (get_or digits (j * 2 + 1) 0) ≡ some lo
    → Spells digits j (hi * 16 + lo)
hex_byte-Spells digits j hi lo h l =
    let high = hex_val-IsDigit _ hi h in
    let low = hex_val-IsDigit _ lo l in
    let small : lo < 16 = IsDigit-lt _ lo low in
    let top : (hi * 16 + lo) / 16 ≡ hi = omega arith in
    let bottom : (hi * 16 + lo) % 16 ≡ lo = omega arith in
    (
      subst (IsDigit (get_or digits (j * 2) 0)) (sym top) high,
      subst (IsDigit (get_or digits (j * 2 + 1) 0)) (sym bottom) low,
    )

-- The first byte, and the later ones.
digits_from :
    (n i : ℕ) (digits : List ℕ) (hi lo : ℕ) (rest : List ℕ)
    → Spells digits i (hi * 16 + lo)
    → ((j : ℕ) → j < n → Spells digits (i + 1 + j) (get_or rest j 0))
    → (j : ℕ) → j < suc n
    → Spells digits (i + j) (get_or ((hi * 16 + lo) ∷ rest) j 0)
digits_from n i digits hi lo rest first later zero l =
    let here : i ≡ i + 0 = omega arith in subst (λ k. Spells digits k (hi * 16 + lo)) here first
digits_from n i digits hi lo rest first later (suc j) l =
    let here : i + 1 + j ≡ i + suc j = omega arith in
    subst (λ k. Spells digits k (get_or rest j 0)) here (later j (omega arith))

-- The bytes that hex_bytes gives are spelled by the digits.
hex_bytes-Spells :
    (n i : ℕ) (digits bytes : List ℕ)
    → hex_bytes n i digits ≡ some bytes
    → (j : ℕ) → j < n
    → Spells digits (i + j) (get_or bytes j 0)
unfolding hex_bytes
hex_bytes-Spells zero i digits bytes h j l = absurd (omega arith)
hex_bytes-Spells (suc n) i digits bytes h j l =
    elim (Option-cases (hex_val (get_or digits (i * 2) 0))) [
      | inr none_high ↦ absurd (let gone : none ≡ some bytes = rw none_high at h in cc)
      | inl (hi, high) ↦ elim (Option-cases (hex_val (get_or digits (i * 2 + 1) 0))) [
        | inr none_low ↦ absurd (let gone : none ≡ some bytes = rw (high, none_low) at h in cc)
        | inl (lo, low) ↦ elim (Option-cases (hex_bytes n (i + 1) digits)) [
          | inr none_rest ↦
              absurd (let gone : none ≡ some bytes = rw (high, low, none_rest) at h in cc)
          | inl (rest, later) ↦
              let bytes_are : (hi * 16 + lo) ∷ rest ≡ bytes =
                some-injective _ _ (rw (high, low, later) at h) in
              subst (λ bs. Spells digits (i + j) (get_or bs j 0)) bytes_are
                (digits_from n i digits hi lo rest (hex_byte-Spells digits i hi lo high low)
                  (hex_bytes-Spells n (i + 1) digits rest later) j l)
        ]
      ]
    ]

get_or-take : (n : ℕ) (xs : List ℕ) (j : ℕ) → j < n → get_or (take n xs) j 0 ≡ get_or xs j 0
get_or-take zero xs j l = absurd (omega arith)
get_or-take (suc n) [] j l = refl
get_or-take (suc n) (x ∷ xs) zero l = refl
get_or-take (suc n) (x ∷ xs) (suc j) l = get_or-take n xs j (omega arith)

get_or-drop : (body : List ℕ) (j : ℕ) → get_or (drop 1 body) j 0 ≡ get_or body (suc j) 0
get_or-drop [] j = refl
get_or-drop (b ∷ body) j = refl

next_byte : (body : List ℕ) (j : ℕ) → get_or body (suc j) 0 ≡ get_or body (1 + j) 0
next_byte body j = let here : suc j ≡ 1 + j = omega arith in rw here refl

last_byte :
    (body : List ℕ) (k : ℕ) → uint16_at body k ≡ get_or body k 0 * 256 + get_or body (suc k) 0
last_byte body k = let here : k + 1 ≡ suc k = omega arith in rw here refl

validate_dev_id-Spells :
    (dev_id : List ℕ) (auth : String)
    → validate_dev_id dev_id auth ≡ none
    → (j : ℕ) → j < 4
    → Spells (strip_hyphens (codes auth)) j (get_or dev_id j 0)
unfolding validate_dev_id
validate_dev_id-Spells dev_id auth h j l =
    let clean = strip_hyphens (codes auth) in
    elim (Bool-cases (ltb (length clean) 8)) [
      | inl short ↦ absurd (let gone : some device_id_mismatch ≡ none = rw short at h in cc)
      | inr long ↦ elim (Option-cases (hex_bytes 4 0 clean)) [
        | inr no_hex ↦
            absurd (let gone : some device_id_mismatch ≡ none = rw (long, no_hex) at h in cc)
        | inl (expected, hex) ↦ elim (Bool-cases (bytes_equal dev_id expected)) [
          | inr differ ↦
              absurd (let gone : some device_id_mismatch ≡ none = rw (long, hex, differ) at h in cc)
          | inl agree ↦
              let same = bytes_equal_lem dev_id expected agree in
              let from_zero : 0 + j ≡ j = omega arith in
              subst (λ bs. Spells clean j (get_or bs j 0)) (sym same)
                (subst (λ k. Spells clean k (get_or expected j 0)) from_zero
                  (hex_bytes-Spells 4 0 clean expected hex j l))
        ]
      ]
    ]

-- Every accepted body is a frame of the authenticated device: it has two bytes for each bit that is
-- set in its field mask beside the twelve of the header and the checksum, it ends in the checksum, high
-- byte first, of what stands before, and its second to fifth byte are spelled by the first eight
-- characters, hexadecimal digits of either case, of the device's ID without hyphens.
pub parse-IsFrame :
    {V : Type 0} (to_float : ℕ → V) (auth_device_id : String) (body : List ℕ)
    {batch : CompactBatch V}
    → parse to_float auth_device_id body ≡ ok batch
    → IsFrame auth_device_id body
parse-IsFrame to_float auth body h =
    let tests = parse-Accepted to_float auth body h in
    let sized : length body ≡ 12 + bits_set (get_or body 9 0) * 2 =
      rw (← ones_count-bits_set (get_or body 9 0)) tests.length_fits in
    record {
      length_fits = sized;
      crc_fits = (
        take (length body - 2) body,
        get_or body (length body - 2) 0,
        get_or body (suc (length body - 2)) 0,
        last_two (length body - 2) body (omega (arith, sized)),
        tests.crc_fits ∙ last_byte body (length body - 2),
      );
      device_fits = λ j l.
          let spelled = validate_dev_id-Spells (take 4 (drop 1 body)) auth tests.device_fits j l in
          let there : get_or (take 4 (drop 1 body)) j 0 ≡ get_or body (1 + j) 0 =
            get_or-take 4 (drop 1 body) j l ∙ get_or-drop body j ∙ next_byte body j in
          subst (λ b. Spells (without_hyphens (codes auth)) j b) there
            (subst (λ cs. Spells cs j (get_or (take 4 (drop 1 body)) j 0))
              (strip_hyphens-without_hyphens (codes auth)) spelled);
    }
