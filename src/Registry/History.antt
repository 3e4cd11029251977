-- ===== src/Registry/History.antt =====
-- Histories of calls of device-registry's services, at whatever moments and with whatever failures.
use green_lab.Prelude.{String, Bool, Option, List, [], ◌∷◌}
use green_lab.Ingestion.Domain.{Time}
use green_lab.Registry.Device.{RegistryLib}
use green_lab.Registry.Tables.{Db, DbCall}
use green_lab.Registry.Devices.{
  CreateDeviceInput, UpdateDeviceInput, create_device, update_device, rotate_api_key, delete_device,
  validate_device_key,
}
use green_lab.Registry.Channels.{
  CreateChannelInput, UpdateChannelInput, CreateFieldInput, UpdateFieldInput, create_channel,
  update_channel, delete_channel, create_field, update_field, delete_field,
}
use green_lab.Registry.Provisioning.{ProvisionInput, provision}
use green_lab.Registry.WellFormed.{WellFormed}
use green_lab.Registry.WellFormed.Operations.{
  Keeps-create_device, Keeps-update_device, Keeps-rotate_api_key, Keeps-delete_device,
  Keeps-validate_device_key, Keeps-create_channel, Keeps-update_channel, Keeps-delete_channel,
  Keeps-create_field, Keeps-update_field, Keeps-delete_field, Keeps-provision,
}

-- A call that may write, with the UUIDs and the random bytes that it draws.
pub data Operation : Type 0 where
  creates_device : String → Option String → String → CreateDeviceInput → Operation
  updates_device : String → UpdateDeviceInput → Operation
  rotates_api_key : Option String → String → Operation
  deletes_device validates_key deletes_channel deletes_field : String → Operation
  provisions : String → Option String → String → ProvisionInput → Operation
  creates_channel : String → CreateChannelInput → Operation
  updates_channel : String → UpdateChannelInput → Operation
  creates_field : String → CreateFieldInput → Operation
  updates_field : String → UpdateFieldInput → Operation

-- An operation, the moment, and which calls of the servers fail.
pub record Visit : Type 0 where
  pub operation : Operation
  pub now : Time
  pub down : DbCall → Bool

module _ (lib : RegistryLib) where
  -- The database after an operation.
  abbrev pub run : (DbCall → Bool) → Time → Operation → Db → Db
  run down now (creates_device id random channel_id input) s =
      (create_device lib down now id random channel_id input s).0
  run down now (updates_device text input) s = (update_device lib down now text input s).0
  run down now (rotates_api_key random text) s = (rotate_api_key lib down now random text s).0
  run down now (deletes_device text) s = (delete_device lib down now text s).0
  run down now (validates_key key) s = (validate_device_key lib down now key s).0
  run down now (deletes_channel text) s = (delete_channel lib down now text s).0
  run down now (deletes_field text) s = (delete_field lib down now text s).0
  run down now (provisions id random channel_id input) s =
      (provision lib down now id random channel_id input s).0
  run down now (creates_channel id input) s = (create_channel lib down now id input s).0
  run down now (updates_channel text input) s = (update_channel lib down now text input s).0
  run down now (creates_field id input) s = (create_field lib down now id input s).0
  run down now (updates_field text input) s = (update_field lib down now text input s).0

  abbrev pub run_all : List Visit → Db → Db
  run_all [] s = s
  run_all (v ∷ vs) s = run_all vs (run v.down v.now v.operation s)

  run-WellFormed :
      (down : DbCall → Bool) (now : Time) (o : Operation) (s : Db)
      → WellFormed s
      → WellFormed (run down now o s)
  run-WellFormed down now (creates_device id random channel_id input) =
      (Keeps-create_device lib down now id random channel_id input).keeps
  run-WellFormed down now (updates_device text input) =
      (Keeps-update_device lib down now text input).keeps
  run-WellFormed down now (rotates_api_key random text) =
      (Keeps-rotate_api_key lib down now random text).keeps
  run-WellFormed down now (deletes_device text) = (Keeps-delete_device lib down now text).keeps
  run-WellFormed down now (validates_key key) = (Keeps-validate_device_key lib down now key).keeps
  run-WellFormed down now (deletes_channel text) = (Keeps-delete_channel lib down now text).keeps
  run-WellFormed down now (deletes_field text) = (Keeps-delete_field lib down now text).keeps
  run-WellFormed down now (provisions id random channel_id input) =
      (Keeps-provision lib down now id random channel_id input).keeps
  run-WellFormed down now (creates_channel id input) =
      (Keeps-create_channel lib down now id input).keeps
  run-WellFormed down now (updates_channel text input) =
      (Keeps-update_channel lib down now text input).keeps
  run-WellFormed down now (creates_field id input) =
      (Keeps-create_field lib down now id input).keeps
  run-WellFormed down now (updates_field text input) =
      (Keeps-update_field lib down now text input).keeps

  -- Whatever operations run, at whatever moments and with whichever failures of the servers,
  -- well-formed tables stay well formed: devices, channels and fields keep different IDs and devices
  -- different API keys, every status, visibility and field type is one of those that exist, every
  -- position is between 1 and 8, and every channel's device and every field's channel has a row.
  pub run_all-WellFormed :
      (visits : List Visit) (s : Db) → WellFormed s → WellFormed (run_all visits s)
  run_all-WellFormed [] s wf = wf
  run_all-WellFormed (v ∷ vs) s wf =
      run_all-WellFormed vs (run v.down v.now v.operation s)
        (run-WellFormed v.down v.now v.operation s wf)
