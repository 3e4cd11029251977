-- ===== src/Registry/Keys.antt =====
-- services/device-registry: infrastructure/postgres/internal_repo.go and
-- application/internal_service.go, which answer the other services' questions about an API key. A
-- query's rows are those of its joins, in the order that its ORDER BY gives.
pub mod Deleted
pub mod Revoked
use green_lab.Prelude.{
  ℕ, String, Bool, true, false, ◌&&◌, ◌||◌, ◌==◌, Option, none, some, List, [], ◌∷◌, ◌++◌, map,
  take, ltb, str_eq, if◌then◌else◌,
}
use green_lab.Prelude.Actions.{Result, done, failed}
use green_lab.Ingestion.Domain.{Time, FieldEntry}
use green_lab.Registry.Integers.{at_most, as_byte}
use green_lab.Registry.Device.{
  RegistryError, uuid_error, device_not_found, storage_error, Answer, Device, RegistryLib,
}
use green_lab.Registry.Channel.{Channel, Field}
use green_lab.Registry.Tables.{Db, DbCall, key_query, Step, has_device, is_present}
use green_lab.Registry.Devices.{device_with_key}

pub record ValidateApiKeyResult : Type 0 where
  pub device_id : String
  pub fields : List FieldEntry
  pub schema_version : ℕ

pub record ResolveChannelResult : Type 0 where
  pub channel_id : String
  pub result : ValidateApiKeyResult

-- WHERE
abbrev pub select : {A : Type 0} → (A → Bool) → List A → List A
select p [] = []
select p (a ∷ rows) = let rest = select p rows in if p a then a ∷ rest else rest

-- JOIN
abbrev pub join : {A B : Type 0} → (A → List B) → List A → List B
join f [] = []
join f (a ∷ rows) = f a ++ join f rows

-- ORDER BY, where rows that are equal keep their order.
abbrev pub place : {A : Type 0} → (A → A → Bool) → A → List A → List A
place before a [] = a ∷ []
place before a (b ∷ rows) =
    let rest = place before a rows in if before a b then a ∷ b ∷ rows else b ∷ rest

abbrev pub order_by : {A : Type 0} → (A → A → Bool) → List A → List A
order_by before [] = []
order_by before (a ∷ rows) = place before a (order_by before rows)

abbrev pub entry_of : Field → FieldEntry
entry_of f = record { index = as_byte f.position; name = f.name; type = f.field_type }

-- The devices and the channels of the two queries of ValidateAPIKey.
abbrev pub pairings : String → String → List Device → List Channel → List (Device × Channel)
pairings key channel_id devices channels =
    join
      (λ d. map (λ c. (d, c)) (select (λ c. has_device d.id c && str_eq c.id channel_id) channels))
      (select (device_with_key key) devices)

abbrev pub field_rows : List (Device × Channel) → List Field → List (Device × Field)
field_rows pairs fields =
    join (λ pair. map (λ f. (pair.0, f)) (select (λ f. str_eq f.channel_id pair.1.id) fields)) pairs

-- A device and its channel without fields are looked up again.
abbrev pub key_answer :
    List (Device × Channel) → List (Device × Field) → Answer ValidateApiKeyResult
key_answer [] [] = failed device_not_found
key_answer ((d, c) ∷ pairs) [] = done (record { device_id = d.id; fields = []; schema_version = 1 })
key_answer pairs ((d, f) ∷ rows) = done (record {
  device_id = d.id;
  fields = map (λ row. entry_of row.1) ((d, f) ∷ rows);
  schema_version = 1;
})

-- One row of ResolveChannelByAPIKey: a channel without fields has one.
abbrev pub optional_fields : List Field → List (Option Field)
optional_fields [] = none ∷ []
optional_fields (f ∷ fs) = some f ∷ map some fs

-- NULL comes last.
abbrev pub position_before : Option Field → Option Field → Bool
position_before (some f) (some g) = at_most f.position g.position
position_before (some f) none = true
position_before none (some g) = false
position_before none none = true

abbrev pub ResolveRow : Type 0
ResolveRow = Device × (Channel × Option Field)

abbrev pub resolve_before : ResolveRow → ResolveRow → Bool
resolve_before (d, (c, f)) (e, (b, g)) =
    ltb c.created_at b.created_at || (c.created_at == b.created_at && position_before f g)

abbrev pub resolve_rows : String → List Device → List Channel → List Field → List ResolveRow
resolve_rows key devices channels fields =
    join
      (λ d.
        join
          (λ c.
            map (λ f. (d, (c, f)))
              (optional_fields (select (λ f. str_eq f.channel_id c.id) fields)))
          (select (has_device d.id) channels))
      (select (device_with_key key) devices)

-- The loop over the rows, which ends at the first row of another channel.
abbrev pub first_channel_fields : String → List ResolveRow → List FieldEntry
first_channel_fields channel_id [] = []
first_channel_fields channel_id ((d, (c, none)) ∷ rows) =
    let rest = first_channel_fields channel_id rows in if str_eq c.id channel_id then rest else []
first_channel_fields channel_id ((d, (c, some f)) ∷ rows) =
    let rest = first_channel_fields channel_id rows in
    if str_eq c.id channel_id then entry_of f ∷ rest else []

-- `decimal` is the verb %d of package fmt. The channel is named by its short ID.
abbrev pub resolve_answer : (ℕ → String) → List ResolveRow → Answer ResolveChannelResult
resolve_answer decimal [] = failed device_not_found
resolve_answer decimal ((d, (c, f)) ∷ rows) = done (record {
  channel_id = decimal c.short_id;
  result = record {
    device_id = d.id;
    fields = first_channel_fields c.id ((d, (c, f)) ∷ rows);
    schema_version = 0;
  };
})

module _ (lib : RegistryLib) (down : DbCall → Bool) where
  -- `$2::uuid`
  abbrev pub as_uuid : String → Answer String
  as_uuid text = elim (lib.parse_uuid text) [ none ↦ failed storage_error | some id ↦ done id ]

  abbrev pub query_key : String → Db → Answer String → Answer ValidateApiKeyResult
  query_key key s (failed e) = failed e
  query_key key s (done id) =
      let pairs = pairings key id s.devices s.channels in
      key_answer pairs
        (order_by (λ r q. at_most r.1.position q.1.position) (field_rows pairs s.fields))

  unfoldable pub validate_api_key : String → String → Step ValidateApiKeyResult
  unfolding is_present
  validate_api_key key channel_id s =
      if down key_query
      then (s, failed storage_error)
      else (s, query_key key s (as_uuid channel_id))

  unfoldable pub resolve_channel_by_api_key : (ℕ → String) → String → Step ResolveChannelResult
  unfolding is_present
  resolve_channel_by_api_key decimal key s = if down key_query then (s, failed storage_error) else (
    s,
    resolve_answer decimal
        (take 100 (order_by resolve_before (resolve_rows key s.devices s.channels s.fields))),
  )
