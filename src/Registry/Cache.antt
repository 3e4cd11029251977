-- ===== src/Registry/Cache.antt =====
-- services/device-registry/internal/infrastructure: field_repo.go and tx_runner.go of postgres,
-- cache.go of redis, and the calls of influxdb/retention.go.
use green_lab.Prelude.{
  ℕ, suc, ◌+◌, ◌*◌, String, Bool, true, false, ◌&&◌, ◌||◌, Option, none, some, List, [], ◌∷◌, ◌++◌,
  map, ltb, str_eq, if◌then◌else◌,
}
use green_lab.Prelude.Maps.{lookup, insert, erase}
use green_lab.Prelude.Actions.{done, failed, find_row}
use green_lab.Ingestion.Domain.{Time, second}
use green_lab.Registry.Integers.{ℤ, same}
use green_lab.Registry.Device.{cache_miss, field_not_found, storage_error, Answer, Device}
use green_lab.Registry.Channel.{Channel, Field}
use green_lab.Registry.Tables.{
  Db, DbCall, field_get, field_update, field_delete, field_create, tx_begin, tx_commit, cache_set,
  cache_get, cache_delete, version_incr, retention_set, Step, update_field_row,
}

-- A channel that a field refers to has a row.
abbrev pub known_channel : String → List Channel → Bool
known_channel id rows = elim (find_row (λ row. str_eq row.id id) rows) [
  | none ↦ false
  | some row ↦ true
]

module _ (down : DbCall → Bool) (now : Time) where
  abbrev guarded : {A : Type 0} → DbCall → Step A → Step A
  guarded c m s = if down c then (s, failed storage_error) else m s

  -- FieldRepo.Create and txFieldRepo.Create; a channel's positions are different.
  unfoldable pub insert_field : Field → Step Unit
  unfolding find_row
  insert_field f = guarded (field_create f.id) (λ s.
      elim (find_row
        (λ row.
          str_eq row.id f.id
          || (str_eq row.channel_id f.channel_id && same row.position f.position))
        s.fields) [
          | some row ↦ (s, failed storage_error)
          | none ↦
              if known_channel f.channel_id s.channels
              then (
                record s {
                  fields = s.fields ++ record f { created_at = now; updated_at = now } ∷ [];
                },
                done tt,
              )
              else (s, failed storage_error)
        ])

  unfoldable pub get_field_row : String → Step Field
  unfolding find_row
  get_field_row id = guarded field_get (λ s. elim (find_row (λ row. str_eq row.id id) s.fields) [
    | none ↦ (s, failed field_not_found)
    | some f ↦ (s, done f)
  ])

  unfoldable pub update_field_rows : Field → Step Unit
  update_field_rows f =
      guarded field_update
        (λ s. (record s { fields = map (update_field_row now f) s.fields }, done tt))

  unfoldable pub without_field : String → List Field → List Field
  without_field id [] = []
  without_field id (f ∷ rows) =
      let rest = without_field id rows in if str_eq f.id id then rest else f ∷ rest

  unfoldable pub delete_field_rows : String → Step Unit
  unfolding without_field
  delete_field_rows id =
      guarded field_delete (λ s. (record s { fields = without_field id s.fields }, done tt))

  abbrev pub device_cache_ttl : Time
  device_cache_ttl = 5 * 60 * second

  abbrev pub device_version_ttl : Time
  device_version_ttl = 24 * 60 * 60 * second

  -- What a value of the cache keeps of a device.
  abbrev pub cached : Device → Device
  cached d = record d { deleted_at = none }

  unfoldable pub set_cached_device : Device → Step Unit
  set_cached_device d = guarded cache_set (λ s.
      let entry : Device × Time = (cached d, now + device_cache_ttl) in
      (
        record s {
          by_id = insert d.id entry s.by_id;
          by_api_key = insert d.api_key entry s.by_api_key;
        },
        done tt,
      ))

  -- A value that has expired is not there.
  abbrev pub live : {V : Type 0} → Option (V × Time) → Option V
  live none = none
  live (some (v, expires)) = if ltb now expires then some v else none

  unfoldable pub get_device_by_api_key : String → Step Device
  get_device_by_api_key key = guarded cache_get (λ s. elim (live (lookup key s.by_api_key)) [
    | none ↦ (s, failed cache_miss)
    | some d ↦ (s, done d)
  ])

  unfoldable pub delete_cached_device : String → String → Step Unit
  delete_cached_device id key =
      guarded cache_delete
        (λ s. (record s { by_id = erase id s.by_id; by_api_key = erase key s.by_api_key }, done tt))

  -- Redis counts a missing key from 0.
  abbrev pub count_of : Option ℕ → ℕ
  count_of none = 0
  count_of (some n) = n

  unfoldable pub incr_device_version : String → Step Unit
  incr_device_version id = guarded version_incr (λ s.
      let count = suc (count_of (live (lookup id s.versions))) in
      (record s { versions = insert id (count, now + device_version_ttl) s.versions }, done tt))

  -- RetentionManager.SetRetention, as the call that is made.
  unfoldable pub set_retention : String → ℤ → Step Unit
  set_retention channel_id days =
      guarded retention_set
        (λ s. (record s { retentions = s.retentions ++ (channel_id, days) ∷ [] }, done tt))

  -- What a rollback restores; sequences go on.
  abbrev pub rolled_back : Db → Db → Db
  rolled_back s t = record t { devices = s.devices; channels = s.channels; fields = s.fields }

  unfoldable pub committed : {A : Type 0} → Db → Db × Answer A → Db × Answer A
  committed s (t, failed e) = (rolled_back s t, failed e)
  committed s (t, done a) =
      if down tx_commit then (rolled_back s t, failed storage_error) else (t, done a)

  -- TxRunner.RunInTx
  unfoldable pub run_in_tx : {A : Type 0} → Step A → Step A
  unfolding committed
  run_in_tx m s = if down tx_begin then (s, failed storage_error) else committed s (m s)
