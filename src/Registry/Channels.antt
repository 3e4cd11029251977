-- ===== src/Registry/Channels.antt =====
-- services/device-registry/internal/application: channel_service.go and field_service.go.
use green_lab.Prelude.{String, Bool, Option, none, some, List, [], ◌∷◌, ◌&&◌, str_eq, if◌then◌else◌}
use green_lab.Prelude.Actions.{done, failed, ◌>>=◌, ◌>>◌, return, from, ignore}
use green_lab.Ingestion.Domain.{Time}
use green_lab.Registry.Integers.{ℤ, is_zero}
use green_lab.Registry.Device.{Answer, RegistryLib}
use green_lab.Registry.Channel.{
  Channel, Field, new_channel, set_channel_name, set_visibility, set_retention_days, text_or,
  new_field, set_field_name,
}
use green_lab.Registry.Tables.{
  DbCall, Step, insert_channel, get_channel_row, update_channel_rows, delete_channel_rows,
}
use green_lab.Registry.Cache.{
  insert_field, get_field_row, update_field_rows, delete_field_rows, set_retention,
}
use green_lab.Registry.Devices.{parse_id}

pub record CreateChannelInput : Type 0 where
  pub workspace_id : String
  pub device_id : Option String
  pub name : String
  pub description : String
  pub visibility : String
  pub tags : List String
  pub retention_days : ℤ

pub record UpdateChannelInput : Type 0 where
  pub name : String
  pub description : String
  pub visibility : String
  pub tags : Option (List String)
  pub retention_days : ℤ

pub record CreateFieldInput : Type 0 where
  pub channel_id : String
  pub name : String
  pub label : String
  pub unit : String
  pub field_type : String
  pub position : ℤ
  pub description : String

pub record UpdateFieldInput : Type 0 where
  pub name : String
  pub label : String
  pub unit : String
  pub description : String

module _ (lib : RegistryLib) (down : DbCall → Bool) (now : Time) where
  -- The device of a new channel, if one is given.
  abbrev pub with_device : Option String → Channel → Step Channel
  with_device none ch = return ch
  with_device (some text) ch = do
    id ← parse_id lib down now text
    return (record ch { device_id = some id })

  abbrev pub with_tags : List String → Channel → Channel
  with_tags [] ch = ch
  with_tags (t ∷ ts) ch = record ch { tags = lib.marshal_tags (t ∷ ts) }

  -- Retention 0 leaves the old one.
  abbrev pub with_retention : ℤ → Channel → Answer Channel
  with_retention days ch = if is_zero days then done ch else set_retention_days now days ch

  unfoldable pub create_channel : String → CreateChannelInput → Step Channel
  create_channel id input = do
    workspace_id ← parse_id lib down now input.workspace_id
    made ← from (new_channel lib now id workspace_id input.name input.description input.visibility)
    owned ← with_device input.device_id made
    ch ← from (with_retention input.retention_days (with_tags input.tags owned))
    created ← insert_channel down now ch
    ignore (set_retention down now created.id created.retention_days)
    return created

  unfoldable pub get_channel : String → Step Channel
  get_channel text = do id ← parse_id lib down now text; get_channel_row down now id

  abbrev pub with_new_tags : Option (List String) → Channel → Channel
  with_new_tags none ch = ch
  with_new_tags (some tags) ch = record ch { tags = lib.marshal_tags tags }

  -- The changes of UpdateChannel: an empty text leaves the old one.
  unfoldable pub changed_channel : UpdateChannelInput → Channel → Answer Channel
  changed_channel input ch =
      elim (if str_eq input.name "" then done ch else set_channel_name lib now input.name ch)
        as (λ _. Answer Channel) [
          | failed e ↦ failed e
          | done named ↦
              let described = record named {
                description = text_or input.description named.description;
              } in
              elim (if str_eq input.visibility ""
                  then done described
                  else set_visibility now input.visibility described)
                as (λ _. Answer Channel) [
                  | failed e ↦ failed e
                  | done shown ↦
                      with_retention input.retention_days (with_new_tags input.tags shown)
                ]
        ]

  unfoldable pub update_channel : String → UpdateChannelInput → Step Channel
  update_channel text input = do
    id ← parse_id lib down now text
    ch ← get_channel_row down now id
    changed ← from (changed_channel input ch)
    update_channel_rows down now changed
    ignore (set_retention down now changed.id changed.retention_days)
    return changed

  unfoldable pub delete_channel : String → Step Unit
  delete_channel text = do id ← parse_id lib down now text; delete_channel_rows down now id

  unfoldable pub create_field : String → CreateFieldInput → Step Field
  create_field id input = do
    channel_id ← parse_id lib down now input.channel_id
    made ← from (
        new_field lib now id channel_id input.name input.label input.unit input.field_type
          input.position)
    let f = record made { description = input.description }
    insert_field down now f
    return f

  unfoldable pub get_field : String → Step Field
  get_field text = do id ← parse_id lib down now text; get_field_row down now id

  -- The changes of UpdateField: an empty text leaves the old one.
  unfoldable pub changed_field : UpdateFieldInput → Field → Answer Field
  changed_field input f =
      elim (if str_eq input.name "" then done f else set_field_name lib now input.name f)
        as (λ _. Answer Field) [
          | failed e ↦ failed e
          | done named ↦ done (record named {
            label = text_or input.label named.label;
            unit = text_or input.unit named.unit;
            description = text_or input.description named.description;
            updated_at =
                if str_eq input.label "" && str_eq input.unit "" && str_eq input.description ""
                then named.updated_at
                else now;
          })
        ]

  unfoldable pub update_field : String → UpdateFieldInput → Step Field
  update_field text input = do
    id ← parse_id lib down now text
    f ← get_field_row down now id
    changed ← from (changed_field input f)
    update_field_rows down now changed
    return changed

  unfoldable pub delete_field : String → Step Unit
  delete_field text = do id ← parse_id lib down now text; delete_field_rows down now id
