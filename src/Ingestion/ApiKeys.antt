-- ===== src/Ingestion/ApiKeys.antt =====
-- services/ingestion/internal/infrastructure: redis/apikey_cache.go and apikey/validator.go. The
-- counters of device_version are written by services/device-registry: a value that is no number is
-- `none`.
pub mod Versions
use Prim.Native.String.{◌++◌}
use green_lab.Prelude.{
  ℕ, ◌+◌, ◌*◌, String, Bool, Option, none, some, List, ltb, ◌==◌, if◌then◌else◌,
}
use green_lab.Prelude.Maps.{lookup, insert, erase}
use green_lab.Ingestion.Domain.{
  Time, second, Error, cache_miss, codec_error, DeviceSchema, Result, ok, err,
}

-- A value of the cache: the schema and the version, or text that does not decode, and when it
-- expires.
abbrev pub KeyCache : Type 0
KeyCache = List (String × (Option (DeviceSchema × ℕ) × Time))

-- What a read of a device's counter gives.
pub data VersionRead : Type 0 where
  unreadable missing not_a_number : VersionRead
  version : ℕ → VersionRead

abbrev pub api_key_cache_ttl : Time
api_key_cache_ttl = 10 * 60 * second

-- A value that has expired is not there.
abbrev pub present : {V : Type 0} → Time → Option (V × Time) → Option V
present now none = none
present now (some (v, expires)) = if ltb now expires then some v else none

-- `hash` is "apikey:" and SHA-256 in hexadecimal.
module _ (hash : String → String) (now : Time) where
  abbrev pub cache_key : String → String → String
  cache_key api_key channel_id = hash (api_key ++ (":" ++ channel_id))

  -- The version check of a hit: without a counter the value is fresh.
  unfoldable pub check_version : DeviceSchema → ℕ → VersionRead → Result DeviceSchema
  check_version schema stored unreadable = err cache_miss
  check_version schema stored missing = ok schema
  check_version schema stored not_a_number = err cache_miss
  check_version schema stored (version current) =
      if current == stored then ok schema else err cache_miss

  unfoldable pub check_entry :
      (String → VersionRead) → Option (Option (DeviceSchema × ℕ)) → Result DeviceSchema
  unfolding check_version
  check_entry read none = err cache_miss
  check_entry read (some none) = err cache_miss
  check_entry read (some (some (schema, stored))) =
      check_version schema stored (read schema.device_id)

  -- APIKeyCache.Validate; `down` says whether the read of the value fails.
  unfoldable pub validate_cached :
      Bool → (String → VersionRead) → String → String → KeyCache → Result DeviceSchema
  unfolding check_entry
  validate_cached down read api_key channel_id cache =
      if down
      then err codec_error
      else check_entry read (present now (lookup (cache_key api_key channel_id) cache))

  -- The version that Set stores.
  abbrev pub stored_version : VersionRead → ℕ
  stored_version (version n) = n
  stored_version _ = 0

  -- APIKeyCache.Set; `down` says whether the write fails.
  unfoldable pub set_key :
      Bool → (String → VersionRead) → String → String → DeviceSchema → KeyCache → KeyCache
  set_key down read api_key channel_id schema cache =
      let entry : Option (DeviceSchema × ℕ) × Time =
        (some (schema, stored_version (read schema.device_id)), now + api_key_cache_ttl) in
      if down then cache else insert (cache_key api_key channel_id) entry cache

  unfoldable pub delete_key : Bool → String → String → KeyCache → KeyCache
  delete_key down api_key channel_id cache =
      if down then cache else erase (cache_key api_key channel_id) cache

  -- What Validator.Validate does with the cache's answer: any error is a miss, and what the store
  -- answers is kept.
  unfoldable pub fall_back :
      Bool
      → (String → VersionRead)
      → Result DeviceSchema
      → String
      → String
      → KeyCache
      → Result DeviceSchema
      → Result DeviceSchema × KeyCache
  fall_back down read store api_key channel_id cache (ok schema) = (ok schema, cache)
  fall_back down read store api_key channel_id cache (err e) = elim store [
    | err x ↦ (err x, cache)
    | ok schema ↦ (ok schema, set_key down read api_key channel_id schema cache)
  ]

  -- Validator.Validate; `store` is what device-registry answers.
  unfoldable pub validate_key :
      Bool
      → Bool
      → (String → VersionRead)
      → Result DeviceSchema
      → String
      → String
      → KeyCache
      → Result DeviceSchema × KeyCache
  unfolding fall_back
  validate_key read_down write_down read store api_key channel_id cache =
      fall_back write_down read store api_key channel_id cache
        (validate_cached read_down read api_key channel_id cache)
