-- ===== src/Registry/Provisioning.antt =====
-- services/device-registry/internal/application/provision_service.go: a device, its channel and the
-- channel's fields in one transaction.
pub mod Atomic
pub mod Steps
pub mod Graphs
use green_lab.Prelude.{String, Bool, Option, none, some, List, [], ◌∷◌, str_eq, if◌then◌else◌}
use green_lab.Prelude.Actions.{Result, done, failed, ◌>>=◌, ◌>>◌, return, from, ignore, require}
use green_lab.Ingestion.Domain.{Time}
use green_lab.Registry.Integers.{ℤ}
use green_lab.Registry.Device.{
  RegistryError, channel_not_found, Answer, Device, RegistryLib, new_device,
}
use green_lab.Registry.Channel.{Channel, Field, new_channel, new_field, set_device}
use green_lab.Registry.Tables.{
  Db, DbCall, Step, insert_device, insert_channel, get_channel_row, link_channel,
}
use green_lab.Registry.Cache.{insert_field, set_cached_device, run_in_tx}
use green_lab.Registry.Devices.{parse_id}

-- The UUID of a field is drawn by NewField.
pub record ProvisionFieldInput : Type 0 where
  pub new_id : String
  pub name : String
  pub label : String
  pub unit : String
  pub field_type : String
  pub position : ℤ

pub record ProvisionInput : Type 0 where
  pub workspace_id : String
  pub name : String
  pub description : String
  pub channel_name : String
  pub channel_description : String
  pub visibility : String
  pub existing_channel_id : String
  pub fields : List ProvisionFieldInput

pub record ProvisionResult : Type 0 where
  pub device : Device
  pub channel : Channel
  pub fields : List Field

module _ (lib : RegistryLib) (down : DbCall → Bool) (now : Time) where
  abbrev pub add_field : Field → Answer (List Field) → Answer (List Field)
  add_field f (failed e) = failed e
  add_field f (done fs) = done (f ∷ fs)

  -- The first field that is refused is the error.
  unfoldable pub build_fields : String → List ProvisionFieldInput → Answer (List Field)
  build_fields channel_id [] = done []
  build_fields channel_id (input ∷ inputs) =
      let rest = build_fields channel_id inputs in
      elim (new_field lib now input.new_id channel_id input.name input.label input.unit
        input.field_type input.position) [ failed e ↦ failed e | done f ↦ add_field f rest ]

  unfoldable pub insert_fields : List Field → Step Unit
  insert_fields [] = return tt
  insert_fields (f ∷ fs) = do insert_field down now f; insert_fields fs

  -- What runs in the transaction of provisionWithNewChannel.
  abbrev pub new_graph : Device → Channel → List Field → Step Channel
  new_graph d ch fields = do
    insert_device down now d
    created ← insert_channel down now ch
    insert_fields fields
    return created

  unfoldable pub provision_with_new_channel :
      String → ProvisionInput → String → Device → Step ProvisionResult
  provision_with_new_channel channel_id input workspace_id d = do
    made ← from (
        new_channel lib now channel_id workspace_id input.channel_name input.channel_description
          input.visibility)
    fields ← from (build_fields channel_id input.fields)
    ch ← run_in_tx down now (new_graph d (set_device now d.id made) fields)
    ignore (set_cached_device down now d)
    return (record { device = d; channel = ch; fields = fields })

  -- What runs in the transaction of provisionWithExistingChannel.
  abbrev pub linked_graph : Device → Channel → List Field → Step Unit
  linked_graph d ch fields = do
    insert_device down now d
    link_channel down now ch
    insert_fields fields

  unfoldable pub provision_with_existing_channel :
      ProvisionInput → String → Device → Step ProvisionResult
  provision_with_existing_channel input workspace_id d = do
    channel_id ← parse_id lib down now input.existing_channel_id
    ch ← get_channel_row down now channel_id
    require (str_eq ch.workspace_id workspace_id) channel_not_found
    fields ← from (build_fields ch.id input.fields)
    let linked = set_device now d.id ch
    run_in_tx down now (linked_graph d linked fields)
    ignore (set_cached_device down now d)
    return (record { device = d; channel = linked; fields = fields })

  -- `id` and `channel_id` are the new UUIDs, and `random` the bytes of the API key.
  unfoldable pub provision : String → Option String → String → ProvisionInput → Step ProvisionResult
  provision id random channel_id input = do
    workspace_id ← parse_id lib down now input.workspace_id
    d ← from (new_device lib now id random workspace_id input.name input.description)
    if str_eq input.existing_channel_id ""
        then provision_with_new_channel channel_id input workspace_id d
        else provision_with_existing_channel input workspace_id d
