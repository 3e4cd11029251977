-- ===== src/Registry/Tables.antt =====
-- services/device-registry/internal/infrastructure: the repositories of postgres, with the keys and
-- the foreign keys of migrations/, the transactions of tx_runner.go, the cache of redis/cache.go and
-- the retention policies. `down` says which calls of the servers fail.
use green_lab.Prelude.{
  ◌≡◌, refl, ℕ, suc, String, Bool, true, false, not, ◌&&◌, ◌||◌, Option, none, some, List, [], ◌∷◌,
  ◌++◌, map, str_eq, if◌then◌else◌,
}
use green_lab.Prelude.Actions.{Result, done, failed, find_row}
use green_lab.Prelude.Actions
use green_lab.Ingestion.Domain.{Time}
use green_lab.Registry.Integers.{ℤ, pos}
use green_lab.Registry.Device.{
  RegistryError, device_not_found, channel_not_found, storage_error, Device,
}
use green_lab.Registry.Channel.{Channel, Field}

-- A key of the cache is a prefix and an ID or an API key: the keys with one prefix are one map. A
-- value has the moment at which it expires.
pub record Db : Type 0 where
  pub devices : List Device
  pub channels : List Channel
  pub fields : List Field
  pub last_short_id : ℕ
  pub by_id : List (String × (Device × Time))
  pub by_api_key : List (String × (Device × Time))
  pub versions : List (String × (ℕ × Time))
  pub retentions : List (String × ℤ)

-- The calls that can fail.
pub data DbCall : Type 0 where
  device_create device_get device_update device_delete : DbCall
  channel_create channel_get channel_update channel_delete : DbCall
  field_get field_update field_delete key_query tx_begin tx_commit : DbCall
  cache_set cache_get cache_delete version_incr retention_set : DbCall
  field_create : String → DbCall

abbrev pub Step : Type 0 → Type 0
Step A = Actions.Action Db RegistryError A

-- WHERE id=$1 AND deleted_at IS NULL
unfoldable pub is_present : Option Time → Bool
is_present none = true
is_present (some t) = false

pub is_present-none : (o : Option Time) → is_present o ≡ true → o ≡ none
unfolding is_present
is_present-none none h = refl
is_present-none (some t) h = absurd (cc)

abbrev pub has_device : String → Channel → Bool
has_device id ch = elim ch.device_id [ none ↦ false | some d ↦ str_eq d id ]

-- The columns that DeviceRepo.Update sets.
abbrev pub update_device_row : Time → Device → Device → Device
update_device_row now d row =
    if str_eq row.id d.id
    then record row {
      name = d.name;
      description = d.description;
      api_key = d.api_key;
      status = d.status;
      updated_at = now;
    }
    else row

unfoldable pub delete_device_row : Time → String → Device → Device
unfolding is_present
delete_device_row now id row =
    if str_eq row.id id && is_present row.deleted_at
    then record row { deleted_at = some now; updated_at = now }
    else row

unfoldable pub delete_channel_of : Time → String → Channel → Channel
unfolding is_present
delete_channel_of now device_id row =
    if has_device device_id row && is_present row.deleted_at
    then record row { deleted_at = some now; updated_at = now }
    else row

-- The columns that ChannelRepo.Update sets.
abbrev pub update_channel_row : Time → Channel → Channel → Channel
update_channel_row now ch row =
    if str_eq row.id ch.id
    then record row {
      name = ch.name;
      description = ch.description;
      visibility = ch.visibility;
      tags = ch.tags;
      updated_at = now;
    }
    else row

-- The columns that txChannelRepo.Update sets.
abbrev pub link_channel_row : Time → Channel → Channel → Channel
link_channel_row now ch row =
    if str_eq row.id ch.id then record row { device_id = ch.device_id; updated_at = now } else row

unfoldable pub delete_channel_row : Time → String → Channel → Channel
unfolding is_present
delete_channel_row now id row =
    if str_eq row.id id && is_present row.deleted_at
    then record row { deleted_at = some now; updated_at = now }
    else row

-- The columns that FieldRepo.Update sets.
abbrev pub update_field_row : Time → Field → Field → Field
update_field_row now f row =
    if str_eq row.id f.id
    then record row {
      name = f.name;
      label = f.label;
      unit = f.unit;
      description = f.description;
      updated_at = now;
    }
    else row

-- A device that a row refers to has a row.
abbrev pub known_device : Option String → List Device → Bool
known_device none rows = true
known_device (some id) rows = elim (find_row (λ row. str_eq row.id id) rows) [
  | none ↦ false
  | some row ↦ true
]

module _ (down : DbCall → Bool) (now : Time) where
  abbrev guarded : {A : Type 0} → DbCall → Step A → Step A
  guarded c m s = if down c then (s, failed storage_error) else m s

  -- The inserts of DeviceRepo.Create and txDeviceRepo.Create; `api_key` is a unique key.
  unfoldable pub insert_device : Device → Step Unit
  unfolding find_row
  insert_device d = guarded device_create (λ s.
      elim (find_row (λ row. str_eq row.api_key d.api_key || str_eq row.id d.id) s.devices) [
        | some row ↦ (s, failed storage_error)
        | none ↦ (
          record s {
            devices =
                s.devices
                ++ record d { created_at = now; updated_at = now; deleted_at = none } ∷ [];
          },
          done tt,
        )
      ])

  -- GetByID and GetByAPIKey, by their WHERE clause.
  unfoldable pub get_device_where : (Device → Bool) → Step Device
  unfolding find_row
  get_device_where p = guarded device_get (λ s. elim (find_row p s.devices) [
    | none ↦ (s, failed device_not_found)
    | some d ↦ (s, done d)
  ])

  unfoldable pub update_device_rows : Device → Step Unit
  unfolding find_row
  update_device_rows d = guarded device_update (λ s.
      elim (find_row (λ row. str_eq row.api_key d.api_key && not (str_eq row.id d.id)) s.devices) [
        | some row ↦ (s, failed storage_error)
        | none ↦ (record s { devices = map (update_device_row now d) s.devices }, done tt)
      ])

  -- DeviceRepo.Delete, with the channels of the device.
  unfoldable pub delete_device_rows : String → Step Unit
  unfolding find_row is_present delete_device_row delete_channel_of
  delete_device_rows id = guarded device_delete (λ s.
      elim (find_row (λ row. str_eq row.id id && is_present row.deleted_at) s.devices) [
        | none ↦ (s, failed device_not_found)
        | some row ↦ (
          record s {
            devices = map (delete_device_row now id) s.devices;
            channels = map (delete_channel_of now id) s.channels;
          },
          done tt,
        )
      ])

  -- The row that Create inserts: the retention is not among its columns.
  abbrev pub channel_row : Channel → ℕ → Channel
  channel_row ch short_id = record ch {
    short_id = short_id;
    retention_days = pos 90;
    created_at = now;
    updated_at = now;
    deleted_at = none;
  }

  -- ChannelRepo.Create and txChannelRepo.Create; the sequence of short IDs goes on even if the row is
  -- refused.
  unfoldable pub insert_channel : Channel → Step Channel
  unfolding find_row
  insert_channel ch = guarded channel_create (λ s.
      let t = record s { last_short_id = suc s.last_short_id } in
      elim (find_row (λ row. str_eq row.id ch.id) s.channels) [
        | some row ↦ (t, failed storage_error)
        | none ↦
            if known_device ch.device_id s.devices
            then (
              record t { channels = s.channels ++ channel_row ch (suc s.last_short_id) ∷ [] },
              done (record ch { short_id = suc s.last_short_id }),
            )
            else (t, failed storage_error)
      ])

  -- ChannelRepo.GetByID: the retention is not among the columns that it reads.
  unfoldable pub get_channel_row : String → Step Channel
  unfolding find_row is_present
  get_channel_row id = guarded channel_get (λ s.
      elim (find_row (λ row. str_eq row.id id && is_present row.deleted_at) s.channels) [
        | none ↦ (s, failed channel_not_found)
        | some ch ↦ (s, done (record ch { retention_days = pos 0 }))
      ])

  unfoldable pub update_channel_rows : Channel → Step Unit
  update_channel_rows ch =
      guarded channel_update
        (λ s. (record s { channels = map (update_channel_row now ch) s.channels }, done tt))

  -- txChannelRepo.Update, with the foreign key of the device.
  unfoldable pub link_channel : Channel → Step Unit
  unfolding find_row
  link_channel ch = guarded channel_update (λ s.
      if known_device ch.device_id s.devices
      then (record s { channels = map (link_channel_row now ch) s.channels }, done tt)
      else (s, failed storage_error))

  unfoldable pub delete_channel_rows : String → Step Unit
  unfolding find_row is_present delete_channel_row
  delete_channel_rows id = guarded channel_delete (λ s.
      elim (find_row (λ row. str_eq row.id id && is_present row.deleted_at) s.channels) [
        | none ↦ (s, failed channel_not_found)
        | some row ↦ (record s { channels = map (delete_channel_row now id) s.channels }, done tt)
      ])
