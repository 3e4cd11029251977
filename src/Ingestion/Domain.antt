-- ===== src/Ingestion/Domain.antt =====
-- services/ingestion/internal/domain: errors.go, reading.go, schema.go.
-- An instant is the number of nanoseconds since the Unix epoch, and a duration a number of
-- nanoseconds: instants before 1970 are left out. `now` is the clock's reading at the call.
use Prim.Native.Char.{code}
use green_lab.Prelude.{
  ℕ, zero, suc, ◌+◌, ◌*◌, String, Bool, true, false, ◌&&◌, ◌||◌, Option, none, some, List, [], ◌∷◌,
  ltb, leb, ◌==◌, str_eq, if◌then◌else◌, ◌≡◌, refl,
}

-- A time.Time and a time.Duration.
abbrev pub Time : Type 0
Time = ℕ

abbrev pub second : ℕ
second = 1000000000

abbrev pub millisecond : ℕ
millisecond = 1000000

abbrev pub day : ℕ
day = 24 * 60 * 60 * second

-- The errors of errors.go. `schema_mismatch_error` is the struct SchemaMismatchError. The last two
-- are not sentinels of errors.go: what a codec returns, and what the publisher returns.
pub data Error : Type 0 where
  invalid_channel_id empty_fields cache_miss device_not_found : Error
  timestamp_too_old timestamp_future timestamp_out_of_replay_window : Error
  schema_mismatch missing_schema_version unknown_field_index payload_too_large : Error
  body_read_error crc_mismatch device_id_mismatch invalid_frame_length : Error
  ts_delta_overflow ts_delta_invalid : Error
  schema_mismatch_error : ℕ → String → Error
  codec_error publish_error : Error

pub data Result {ℓ} (A : Type ℓ) : Type ℓ where
  ok : A → Result A
  err : Error → Result A

infixl 5 ◌>>=◌
abbrev pub ◌>>=◌ {ℓ κ} : {A : Type ℓ} {B : Type κ} → Result A → (A → Result B) → Result B
ok a >>= f = f a
err e >>= f = err e

infixl 5 ◌>>◌
abbrev pub ◌>>◌ {ℓ} : {B : Type ℓ} → Option Error → Result B → Result B
none >> k = k
some e >> k = err e

pub ok_injective {ℓ} : {A : Type ℓ} {a b : A} → ok a ≡ ok b → a ≡ b
ok_injective h = cc

-- Inversion of a chain that succeeded.
pub >>-eq-ok {ℓ} :
    {B : Type ℓ} (o : Option Error) (k : Result B) {b : B}
    → (o >> k) ≡ ok b
    → (o ≡ none) × (k ≡ ok b)
>>-eq-ok none k h = (refl, h)
>>-eq-ok (some e) k h = absurd (cc)

pub >>=-eq-ok {ℓ κ} :
    {A : Type ℓ} {B : Type κ} (m : Result A) (next : A → Result B) {result : B}
    → (m >>= next) ≡ ok result
    → (value : A) × (m ≡ ok value) × (next value ≡ ok result)
>>=-eq-ok (err e) next h = absurd (cc)
>>=-eq-ok (ok value) next h = (value, refl, h)

pub record Reading (V : Type 0) : Type 0 where
  pub channel_id : String
  pub device_id : String
  pub fields : List (String × V)
  pub tags : List (String × String)
  pub timestamp : Time

pub record FieldEntry : Type 0 where
  pub index : ℕ  -- uint8
  pub name : String
  pub type : String

pub record DeviceSchema : Type 0 where
  pub device_id : String
  pub channel_id : String
  pub fields : List FieldEntry
  pub schema_version : ℕ  -- uint32

abbrev pub new_reading :
    {V : Type 0} → String → String → List (String × V) → List (String × String) → Time → Reading V
new_reading channel_id device_id fields tags ts = record {
  channel_id = channel_id;
  device_id = device_id;
  fields = fields;
  tags = tags;
  timestamp = ts;
}

-- The characters of a text, as code points.
abbrev pub codes : String → List ℕ
codes String.[] = []
codes (String.◌∷◌ c s) = code c ∷ codes s

is_hex_digit : ℕ → Bool
is_hex_digit c = leb b'0' c && leb c b'9' || leb b'a' c && leb c b'f' || leb b'A' c && leb c b'F'

-- [0-9a-f]{n}, then the rest of the pattern.
hex_run : ℕ → (List ℕ → Bool) → List ℕ → Bool
unfolding is_hex_digit
hex_run zero rest cs = rest cs
hex_run (suc n) rest [] = false
hex_run (suc n) rest (c ∷ cs) = is_hex_digit c && hex_run n rest cs

hyphen : (List ℕ → Bool) → List ℕ → Bool
hyphen rest [] = false
hyphen rest (c ∷ cs) = c == b'-' && rest cs

at_end : List ℕ → Bool
at_end [] = true
at_end (c ∷ cs) = false

-- uuidRE, read from its end.
unfoldable pub uuid_re : List ℕ → Bool
unfolding hex_run hyphen at_end
uuid_re =
    hex_run 8
      (hyphen (hex_run 4 (hyphen (hex_run 4 (hyphen (hex_run 4 (hyphen (hex_run 12 at_end))))))))

unfoldable pub validate_channel_id : String → Option Error
unfolding uuid_re
validate_channel_id id =
    if uuid_re (codes id)
    then (if str_eq id "00000000-0000-0000-0000-000000000000"
        then some invalid_channel_id
        else none)
    else some invalid_channel_id

-- `ts.Before(now.Add(-max_age))` has its subtraction moved to the other side.
unfoldable pub validate_timestamp : Time → Time → ℕ → Option Error
validate_timestamp now ts max_age =
    if ltb (now + 30 * second) ts
    then some timestamp_future
    else if ltb 0 max_age && ltb (ts + max_age) now
    then some timestamp_too_old
    else none

unfoldable pub validate_replay_timestamp : Time → Time → ℕ → Option Error
validate_replay_timestamp now ts window_days =
    if ltb (now + 30 * second) ts
    then some timestamp_future
    else if ltb (ts + window_days * day) now
    then some timestamp_out_of_replay_window
    else none
