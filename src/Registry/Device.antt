-- ===== src/Registry/Device.antt =====
-- services/device-registry/internal/domain/device: device.go and errors.go, with the errors of the
-- packages channel and field. UUIDs are texts, and `now` is the clock's reading.
use Prim.Native.String.{◌++◌}
use green_lab.Prelude.{String, Bool, ◌||◌, Option, none, some, List, str_eq, if◌then◌else◌}
use green_lab.Prelude.Actions.{Result, done, failed}
use green_lab.Ingestion.Domain.{Time}

-- From `uuid_error` on, errors that are not sentinels: those of uuid.Parse, of crypto/rand, of
-- CreateDevice's check of the location, and of the infrastructure.
pub data RegistryError : Type 0 where
  device_not_found device_already_deleted invalid_name invalid_status cache_miss : RegistryError
  channel_not_found invalid_visibility invalid_retention : RegistryError
  field_not_found invalid_position invalid_field_type : RegistryError
  uuid_error random_error location_error storage_error : RegistryError

abbrev pub Answer : Type 0 → Type 0
Answer A = Result RegistryError A

-- The last sighting, which nothing sets, is left out.
pub record Device : Type 0 where
  pub id : String
  pub workspace_id : String
  pub name : String
  pub description : String
  pub api_key : String
  pub status : String
  pub metadata : String
  pub created_at : Time
  pub updated_at : Time
  pub deleted_at : Option Time

-- strings.TrimSpace, uuid.Parse and json.Marshal, of a location and of tags.
pub record RegistryLib : Type 0 where
  pub trim_space : String → String
  pub parse_uuid : String → Option String
  pub marshal_location : Option String → Option String → String → String
  pub marshal_tags : List String → String

-- The eight random bytes in hexadecimal, unless the read of them fails.
abbrev pub generate_api_key : Option String → Answer String
generate_api_key none = failed random_error
generate_api_key (some hex) = done ("g_" ++ hex)

unfoldable pub is_blank : RegistryLib → String → Bool
is_blank lib name = str_eq (lib.trim_space name) ""

module _ (lib : RegistryLib) (now : Time) where
  unfoldable pub new_device : String → Option String → String → String → String → Answer Device
  unfolding is_blank
  new_device id random workspace_id name description =
      if is_blank lib name then failed invalid_name else elim (generate_api_key random) [
        | failed e ↦ failed e
        | done key ↦ done (record {
          id = id;
          workspace_id = workspace_id;
          name = name;
          description = description;
          api_key = key;
          status = "active";
          metadata = "";
          created_at = now;
          updated_at = now;
          deleted_at = none;
        })
      ]

  unfoldable pub set_device_name : String → Device → Answer Device
  unfolding is_blank
  set_device_name name d =
      if is_blank lib name
      then failed invalid_name
      else done (record d { name = lib.trim_space name; updated_at = now })

unfoldable pub is_status : String → Bool
is_status status = str_eq status "active" || str_eq status "inactive" || str_eq status "blocked"

unfoldable pub set_status : Time → String → Device → Answer Device
unfolding is_status
set_status now status d =
    if is_status status
    then done (record d { status = status; updated_at = now })
    else failed invalid_status

unfoldable pub rotate_key : Time → Option String → Device → Answer Device
rotate_key now random d = elim (generate_api_key random) [
  | failed e ↦ failed e
  | done key ↦ done (record d { api_key = key; updated_at = now })
]

unfoldable pub soft_delete : Time → Device → Answer Device
soft_delete now d = elim d.deleted_at [
  | some t ↦ failed device_already_deleted
  | none ↦ done (record d { deleted_at = some now; updated_at = now })
]
