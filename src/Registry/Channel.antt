-- ===== src/Registry/Channel.antt =====
-- services/device-registry/internal/domain: channel/channel.go and field/field.go.
use green_lab.Prelude.{String, Bool, not, ◌||◌, Option, none, some, str_eq, ℕ, if◌then◌else◌}
use green_lab.Prelude.Actions.{done, failed}
use green_lab.Ingestion.Domain.{Time}
use green_lab.Registry.Integers.{ℤ, pos, within}
use green_lab.Registry.Device.{
  invalid_name, invalid_visibility, invalid_retention, invalid_position, invalid_field_type, Answer,
  RegistryLib, is_blank,
}

pub record Channel : Type 0 where
  pub id : String
  pub short_id : ℕ
  pub workspace_id : String
  pub device_id : Option String
  pub name : String
  pub description : String
  pub visibility : String
  pub tags : String
  pub retention_days : ℤ
  pub created_at : Time
  pub updated_at : Time
  pub deleted_at : Option Time

unfoldable pub is_visibility : String → Bool
is_visibility v = str_eq v "public" || str_eq v "private"

abbrev pub set_device : Time → String → Channel → Channel
set_device now device_id ch = record ch { device_id = some device_id; updated_at = now }

unfoldable pub set_visibility : Time → String → Channel → Answer Channel
unfolding is_visibility
set_visibility now v ch =
    if is_visibility v
    then done (record ch { visibility = v; updated_at = now })
    else failed invalid_visibility

unfoldable pub set_retention_days : Time → ℤ → Channel → Answer Channel
set_retention_days now days ch =
    if within 1 365 days
    then done (record ch { retention_days = days; updated_at = now })
    else failed invalid_retention

pub record Field : Type 0 where
  pub id : String
  pub channel_id : String
  pub name : String
  pub label : String
  pub unit : String
  pub field_type : String
  pub position : ℤ
  pub description : String
  pub created_at : Time
  pub updated_at : Time

unfoldable pub is_field_type : String → Bool
is_field_type t = str_eq t "float" || str_eq t "integer" || str_eq t "string" || str_eq t "boolean"

-- An empty text stands for the default.
abbrev pub text_or : String → String → String
text_or text other = if str_eq text "" then other else text

module _ (lib : RegistryLib) (now : Time) where
  unfoldable pub new_channel : String → String → String → String → String → Answer Channel
  unfolding is_blank is_visibility
  new_channel id workspace_id name description visibility =
      if is_blank lib name
      then failed invalid_name
      else if not (is_visibility (text_or visibility "private"))
      then failed invalid_visibility
      else done (record {
        id = id;
        short_id = 0;
        workspace_id = workspace_id;
        device_id = none;
        name = name;
        description = description;
        visibility = text_or visibility "private";
        tags = "[]";
        retention_days = pos 90;
        created_at = now;
        updated_at = now;
        deleted_at = none;
      })

  unfoldable pub set_channel_name : String → Channel → Answer Channel
  unfolding is_blank
  set_channel_name name ch =
      if is_blank lib name
      then failed invalid_name
      else done (record ch { name = lib.trim_space name; updated_at = now })

  unfoldable pub new_field : String → String → String → String → String → String → ℤ → Answer Field
  unfolding is_blank is_field_type
  new_field id channel_id name label unit field_type position =
      if is_blank lib name
      then failed invalid_name
      else if not (within 1 8 position)
      then failed invalid_position
      else if not (is_field_type (text_or field_type "float"))
      then failed invalid_field_type
      else done (record {
        id = id;
        channel_id = channel_id;
        name = name;
        label = label;
        unit = unit;
        field_type = text_or field_type "float";
        position = position;
        description = "";
        created_at = now;
        updated_at = now;
      })

  unfoldable pub set_field_name : String → Field → Answer Field
  unfolding is_blank
  set_field_name name f =
      if is_blank lib name
      then failed invalid_name
      else done (record f { name = lib.trim_space name; updated_at = now })
