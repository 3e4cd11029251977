-- ===== src/Tests/Devices.antt =====
-- Tests of device-registry, and of the cache of its answers in ingestion.
use green_lab.Prelude.{
  get_elem?, ℕ, Option, ◌≡◌, ◌≢◌, ◌+◌, ◌∷◌, [], refl, String, Bool, true, false, none, some, List,
  arith,
}
use green_lab.Prelude.Maps.{lookup}
use green_lab.Prelude.Actions.{done, failed, find_row, ◌>>=◌, return, from, ignore}
use green_lab.Ingestion.Domain.{codes, uuid_re, DeviceSchema, ok, err, cache_miss}
use green_lab.Ingestion.Handler.ThingSpeak.{zero_reply, thing_speak, resolved_schema}
use green_lab.Ingestion.Handler.Unreachable.{thing_speak-resolve_channel_by_api_key}
use green_lab.Ingestion.ApiKeys.{KeyCache, validate_key}
use green_lab.Ingestion.ApiKeys.Versions.{counters, count_before, validate_key-rotate_api_key}
use green_lab.Registry.Integers.{pos}
use green_lab.Registry.Device.{
  Device, RegistryLib, RegistryError, is_blank, is_status, new_device, set_status, rotate_key,
  soft_delete,
}
use green_lab.Registry.Channel.{
  Channel, Field, is_visibility, is_field_type, new_channel, new_field,
}
use green_lab.Registry.Tables.{
  Db, DbCall, is_present, insert_device, insert_channel, get_channel_row, link_channel,
  get_device_where, update_device_rows, delete_device_rows, delete_device_row, delete_channel_of,
  delete_channel_rows, delete_channel_row, tx_commit,
}
use green_lab.Registry.Cache.{
  insert_field, run_in_tx, committed, set_cached_device, delete_cached_device, incr_device_version,
  cached,
}
use green_lab.Registry.Devices.{
  UpdateDeviceInput, update_device, changed_device, rotate_api_key, delete_device,
  validate_device_key,
}
use green_lab.Registry.Channels.{delete_channel}
use green_lab.Registry.Provisioning.{
  ProvisionInput, ProvisionFieldInput, ProvisionResult, provision, provision_with_new_channel,
  provision_with_existing_channel, build_fields, insert_fields,
}
use green_lab.Registry.Provisioning.Atomic.{Tables, provision-Tables}
use green_lab.Registry.Provisioning.Graphs.{
  AddsGraph, provision-AddsGraph, LinksGraph, provision-LinksGraph,
}
use green_lab.Registry.WellFormed.{WellFormed}
use green_lab.Registry.History.{Visit, deletes_device, rotates_api_key, run_all, run_all-WellFormed}
use green_lab.Registry.Keys.{validate_api_key, resolve_channel_by_api_key}
use green_lab.Registry.Keys.Deleted.{validate_api_key-delete_channel}
use green_lab.Registry.Keys.Revoked.{
  validate_device_key-delete_device, validate_device_key-update_device,
}

abbrev lib : RegistryLib
lib = record {
  trim_space = λ text. text;
  parse_uuid = some;
  marshal_location = λ lat lng address. address;
  marshal_tags = λ tags. "[]";
}

abbrev all_up : DbCall → Bool
all_up call = false

-- Only the commits of transactions fail.
abbrev no_commit : DbCall → Bool
no_commit tx_commit = true
no_commit _ = false

abbrev sensor : Device
sensor = record {
  id = "d1";
  workspace_id = "w1";
  name = "Sensor";
  description = "";
  api_key = "g_old";
  status = "active";
  metadata = "";
  created_at = 1;
  updated_at = 1;
  deleted_at = none;
}

abbrev garden : Channel
garden = record {
  id = "c1";
  short_id = 1;
  workspace_id = "w1";
  device_id = some "d1";
  name = "Garden";
  description = "";
  visibility = "private";
  tags = "[]";
  retention_days = pos 90;
  created_at = 1;
  updated_at = 1;
  deleted_at = none;
}

abbrev heat : Field
heat = record {
  id = "f1";
  channel_id = "c1";
  name = "heat";
  label = "";
  unit = "C";
  field_type = "float";
  position = pos 1;
  description = "";
  created_at = 1;
  updated_at = 1;
}

abbrev db : Db
db = record {
  devices = sensor ∷ [];
  channels = garden ∷ [];
  fields = heat ∷ [];
  last_short_id = 1;
  by_id = [];
  by_api_key = [];
  versions = [];
  retentions = [];
}

abbrev light : ProvisionFieldInput
light = record {
  new_id = "f2";
  name = "light";
  label = "";
  unit = "lx";
  field_type = "";
  position = pos 2;
}

abbrev request : ProvisionInput
request = record {
  workspace_id = "w1";
  name = "Lamp";
  description = "";
  channel_name = "Hall";
  channel_description = "";
  visibility = "";
  existing_channel_id = "";
  fields = light ∷ [];
}

abbrev linking : ProvisionInput
linking = record request { existing_channel_id = "c1" }

abbrev aborted : Db
aborted = (provision lib no_commit 5 "d2" (some "00ff") "c2" request db).0

was_aborted :
    (x : RegistryError) × ((provision lib no_commit 5 "d2" (some "00ff") "c2" request db).1
      ≡ failed x)
unfolding provision provision_with_new_channel new_device new_channel new_field is_blank
    is_visibility is_field_type build_fields insert_fields run_in_tx committed insert_device
    insert_channel insert_field find_row ◌>>=◌ return from ignore
was_aborted = (_, refl)

provision-Tables_example : Tables (sensor ∷ []) (garden ∷ []) (heat ∷ []) aborted
provision-Tables_example =
    provision-Tables no_commit 5 lib "d2" (some "00ff") "c2" request db was_aborted.0 was_aborted.1

was_provisioned :
    (t : Db) × (r : ProvisionResult) × (provision lib all_up 5 "d2" (some "00ff") "c2" request db
      ≡ (t, done r))
unfolding provision provision_with_new_channel new_device new_channel new_field is_blank
    is_visibility is_field_type build_fields insert_fields run_in_tx committed insert_device
    insert_channel insert_field set_cached_device find_row ◌>>=◌ return from ignore
was_provisioned = (_, _, refl)

provision-AddsGraph_example :
    (was_provisioned.1.device.id ≡ "d2")
    × (some "w1" ≡ some was_provisioned.1.device.workspace_id)
    × AddsGraph all_up 5 lib "c2" db was_provisioned.0 was_provisioned.1 (light ∷ [])
provision-AddsGraph_example =
    provision-AddsGraph all_up 5 lib "d2" (some "00ff") "c2" request db was_provisioned.0
      was_provisioned.1 refl was_provisioned.2

was_linked :
    (t : Db) × (r : ProvisionResult) × (provision lib all_up 5 "d2" (some "00ff") "c2" linking db
      ≡ (t, done r))
unfolding provision provision_with_existing_channel new_device new_channel new_field is_blank
    is_visibility is_field_type build_fields insert_fields run_in_tx committed insert_device
    get_channel_row link_channel is_present insert_field set_cached_device find_row ◌>>=◌ return
    from ignore
was_linked = (_, _, refl)

provision-LinksGraph_example :
    (was_linked.1.device.id ≡ "d2")
    × (some "w1" ≡ some was_linked.1.device.workspace_id)
    × (some "c1" ≡ some was_linked.1.channel.id)
    × LinksGraph all_up 5 lib db was_linked.0 was_linked.1 (light ∷ [])
provision-LinksGraph_example =
    provision-LinksGraph all_up 5 lib "d2" (some "00ff") "c2" linking db was_linked.0 was_linked.1
      refl was_linked.2

abbrev visits : List Visit
visits =
    record { operation = rotates_api_key (some "00ff") "d1"; now = 5; down = all_up }
    ∷ record { operation = deletes_device "d1"; now = 6; down = no_commit }
    ∷ []

db-WellFormed : WellFormed db
unfolding is_status is_visibility is_field_type find_row
db-WellFormed =
    ((refl, refl, (refl, tt)), (refl, ((refl, refl), tt)), (refl, (((refl, refl), refl), tt)))

run_all-WellFormed_example : WellFormed (run_all lib visits db)
run_all-WellFormed_example = run_all-WellFormed lib visits db db-WellFormed

was_deleted : (t : Db) × (delete_device lib all_up 5 "d1" db ≡ (t, done tt))
unfolding delete_device get_device_where soft_delete delete_device_rows delete_device_row
    delete_channel_of is_present delete_cached_device incr_device_version find_row ◌>>=◌ return from
    ignore
was_deleted = (_, refl)

validate_device_key-delete_device_example :
    (d : Device) × (e x : RegistryError) × (some "d1" ≡ some d.id)
    × ((i : ℕ) × (get_elem? db.devices i ≡ some d))
    × (d.deleted_at ≡ none)
    × ((validate_device_key lib all_up 9 d.api_key was_deleted.0).1 ≡ failed e)
    × ((validate_api_key lib all_up d.api_key "c1" was_deleted.0).1 ≡ failed x)
validate_device_key-delete_device_example =
    validate_device_key-delete_device lib all_up 5 all_up 9 "d1" "c1" db was_deleted.0 refl refl
      was_deleted.1

abbrev blocking : UpdateDeviceInput
blocking = record { name = ""; description = ""; status = "blocked" }

was_blocked : (t : Db) × (d : Device) × (update_device lib all_up 5 "d1" blocking db ≡ (t, done d))
unfolding update_device get_device_where changed_device set_status is_status update_device_rows
    is_present set_cached_device find_row ◌>>=◌ return from ignore
was_blocked = (_, _, refl)

validate_device_key-update_device_example :
    validate_device_key lib all_up 9 was_blocked.1.api_key was_blocked.0
    ≡ (was_blocked.0, done (cached all_up 5 was_blocked.1))
validate_device_key-update_device_example =
    validate_device_key-update_device lib all_up all_up 5 9 "d1" blocking db was_blocked.0
      was_blocked.1 refl refl (omega arith) was_blocked.2

was_removed : (t : Db) × (delete_channel lib all_up 5 "c1" db ≡ (t, done tt))
unfolding delete_channel delete_channel_rows delete_channel_row is_present find_row ◌>>=◌ from
was_removed = (_, refl)

validate_api_key-delete_channel_example :
    (validate_api_key lib all_up "g_old" "c1" was_removed.0).1
    ≡ (validate_api_key lib all_up "g_old" "c1" db).1
validate_api_key-delete_channel_example =
    validate_api_key-delete_channel lib all_up 5 all_up "c1" "g_old" "c1" db was_removed.0
      was_removed.1

was_rotated :
    (t : Db) × (d : Device) × (rotate_api_key lib all_up 5 (some "00ff") "d1" db ≡ (t, done d))
unfolding rotate_api_key get_device_where rotate_key update_device_rows is_present set_cached_device
    incr_device_version find_row ◌>>=◌ return from ignore
was_rotated = (_, _, refl)

abbrev garden_schema : DeviceSchema
garden_schema = record { device_id = "d1"; channel_id = "c1"; fields = []; schema_version = 1 }

abbrev key_cache : KeyCache
key_cache = ("g_old:c1", (some (garden_schema, 0), 500)) ∷ []

rotated_id : garden_schema.device_id ≡ was_rotated.1.id
unfolding was_rotated
rotated_id = refl

validate_key-rotate_api_key_example :
    let count = 1 + count_before 5 (lookup was_rotated.1.id db.versions) in
    let answer =
      validate_key
        (λ text. text)
        9
        false
        false
        (counters all_up 9 was_rotated.0)
        (err cache_miss)
        "g_old"
        "c1"
        key_cache in
    (0 ≡ count → answer ≡ (ok garden_schema, key_cache)) × (0 ≢ count → answer.0 ≡ err cache_miss)
validate_key-rotate_api_key_example =
    validate_key-rotate_api_key lib all_up 5 all_up 9 (λ text. text) (some "00ff") "d1" db
      was_rotated.0 was_rotated.1 false (err cache_miss) "g_old" "c1" key_cache garden_schema 0 500
      refl was_rotated.2 (omega arith) rotated_id refl (omega arith)

-- Short IDs of one digit.
abbrev one_digit : ℕ → String
one_digit n = "7"

one_digit-refused : (n : ℕ) → uuid_re (codes (one_digit n)) ≡ false
unfolding uuid_re
one_digit-refused n = refl

abbrev parse_one : String → Option ℕ
parse_one text = some 1

abbrev all_given : ℕ → String
all_given i = "1"

thing_speak-resolve_channel_by_api_key_example :
    thing_speak parse_one all_given 9 0 none "g_old" "" none
      (λ key. resolved_schema (resolve_channel_by_api_key lib all_up one_digit key db).1)
    ≡ (zero_reply, [])
thing_speak-resolve_channel_by_api_key_example =
    thing_speak-resolve_channel_by_api_key parse_one all_given lib all_up one_digit db 9 0 none
      "g_old" "" none one_digit-refused
