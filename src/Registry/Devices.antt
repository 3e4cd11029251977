-- ===== src/Registry/Devices.antt =====
-- services/device-registry/internal/application/device_service.go. A call's clock readings are one
-- instant, `now`, and the UUIDs and random bytes that it draws are arguments.
use green_lab.Prelude.{
  String, Bool, true, false, ◌||◌, not, Option, none, some, str_eq, if◌then◌else◌, ◌&&◌,
}
use green_lab.Prelude.Actions.{done, failed, ◌>>=◌, ◌>>◌, return, from, ignore, require}
use green_lab.Ingestion.Domain.{Time}
use green_lab.Registry.Device.{
  uuid_error, location_error, Answer, Device, RegistryLib, new_device, set_device_name, set_status,
  rotate_key, soft_delete,
}
use green_lab.Registry.Channel.{Channel, new_channel, set_device, text_or}
use green_lab.Registry.Tables.{
  Db, DbCall, Step, is_present, insert_device, get_device_where, update_device_rows,
  delete_device_rows, insert_channel,
}
use green_lab.Registry.Cache.{
  set_cached_device, get_device_by_api_key, delete_cached_device, incr_device_version, run_in_tx,
}

pub record CreateDeviceInput : Type 0 where
  pub workspace_id : String
  pub name : String
  pub description : String
  pub lat : Option String
  pub lng : Option String
  pub location_address : String
  pub channel_name : String
  pub channel_visibility : String

pub record UpdateDeviceInput : Type 0 where
  pub name : String
  pub description : String
  pub status : String

abbrev pub given : Option String → Bool
given none = false
given (some x) = true

-- `x != y`
abbrev pub differ : Bool → Bool → Bool
differ true b = not b
differ false b = b

-- WHERE id=$1 AND deleted_at IS NULL
abbrev pub device_with_id : String → Device → Bool
device_with_id id d = str_eq d.id id && is_present d.deleted_at

-- WHERE api_key=$1 AND status='active' AND deleted_at IS NULL
abbrev pub device_with_key : String → Device → Bool
device_with_key key d = str_eq d.api_key key && str_eq d.status "active" && is_present d.deleted_at

module _ (lib : RegistryLib) (down : DbCall → Bool) (now : Time) where
  abbrev pub parse_id : String → Step String
  parse_id text = from (elim (lib.parse_uuid text) [ none ↦ failed uuid_error | some id ↦ done id ])

  abbrev pub with_location : CreateDeviceInput → Device → Device
  with_location input d =
      if given input.lat || given input.lng || not (str_eq input.location_address "")
      then record d { metadata = lib.marshal_location input.lat input.lng input.location_address }
      else d

  -- What CreateDevice does in its transaction.
  abbrev pub device_with_channel : Device → Channel → Step Channel
  device_with_channel d ch = do insert_device down now d; insert_channel down now ch

  unfoldable pub create_device :
      String → Option String → String → CreateDeviceInput → Step (Device × Channel)
  create_device id random channel_id input = do
    workspace_id ← parse_id input.workspace_id
    created ← from (new_device lib now id random workspace_id input.name input.description)
    require (not (differ (given input.lat) (given input.lng))) location_error
    let d = with_location input created
    made ← from (
        new_channel lib now channel_id workspace_id (text_or input.channel_name "Channel 1") ""
          (if str_eq input.channel_visibility "public" then "public" else "private"))
    ch ← run_in_tx down now (device_with_channel d (set_device now d.id made))
    ignore (set_cached_device down now d)
    return (d, ch)

  unfoldable pub get_device : String → Step Device
  unfolding is_present
  get_device text = do id ← parse_id text; get_device_where down now (device_with_id id)

  -- The changes of UpdateDevice: an empty text leaves the old one.
  unfoldable pub changed_device : UpdateDeviceInput → Device → Answer Device
  changed_device input d =
      elim (if str_eq input.name "" then done d else set_device_name lib now input.name d)
        as (λ _. Answer Device) [
          | failed e ↦ failed e
          | done named ↦
              let described = record named {
                description = text_or input.description named.description;
              } in
              if str_eq input.status ""
              then done described
              else set_status now input.status described
        ]

  unfoldable pub update_device : String → UpdateDeviceInput → Step Device
  unfolding is_present
  update_device text input = do
    id ← parse_id text
    d ← get_device_where down now (device_with_id id)
    changed ← from (changed_device input d)
    update_device_rows down now changed
    ignore (set_cached_device down now changed)
    return changed

  unfoldable pub rotate_api_key : Option String → String → Step Device
  unfolding is_present
  rotate_api_key random text = do
    id ← parse_id text
    d ← get_device_where down now (device_with_id id)
    rotated ← from (rotate_key now random d)
    update_device_rows down now rotated
    ignore (set_cached_device down now rotated)
    ignore (incr_device_version down now rotated.id)
    return rotated

  unfoldable pub delete_device : String → Step Unit
  unfolding is_present
  delete_device text = do
    id ← parse_id text
    d ← get_device_where down now (device_with_id id)
    deleted ← from (soft_delete now d)
    delete_device_rows down now id
    ignore (delete_cached_device down now deleted.id deleted.api_key)
    ignore (incr_device_version down now deleted.id)

  -- ValidateAPIKey, once the cache has failed to answer.
  unfoldable pub look_up_key : String → Step Device
  unfolding is_present
  look_up_key key = do
    d ← get_device_where down now (device_with_key key)
    ignore (set_cached_device down now d)
    return d

  -- What ValidateAPIKey does with the cache's answer: any error of the cache is a miss.
  unfoldable pub or_look_up : String → Db → Answer Device → Db × Answer Device
  or_look_up key s (done d) = (s, done d)
  or_look_up key s (failed e) = look_up_key key s

  unfoldable pub validate_device_key : String → Step Device
  unfolding or_look_up
  validate_device_key key s =
      let out = get_device_by_api_key down now key s in or_look_up key out.0 out.1
