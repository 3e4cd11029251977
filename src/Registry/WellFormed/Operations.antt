-- ===== src/Registry/WellFormed/Operations.antt =====
-- The operations of the services of device-registry leave well-formed tables well formed.
use green_lab.Prelude.{
  ◌≡◌, subst, String, Bool, inl, inr, Option, none, some, List, [], ◌∷◌, All, arith,
}
use green_lab.Prelude.Actions.{done, failed, return, from}
use green_lab.Prelude.Actions.Gives.{done_injective, Result-cases}
use green_lab.Prelude.Actions.Keeps.{
  Ensures, Keeps, Keeps-all, Ensures-bind, Keeps-bind, Keeps-then, Keeps-return, Keeps-from,
  Ensures-from, Keeps-ignore, Keeps-require, Ensures-if,
}
use green_lab.Ingestion.Domain.{Time}
use green_lab.Registry.Device.{Answer, Device, RegistryLib}
use green_lab.Registry.Channel.{Channel, Field, new_field}
use green_lab.Registry.Tables.{Db, DbCall}
use green_lab.Registry.Devices.{
  CreateDeviceInput, UpdateDeviceInput, create_device, update_device, rotate_api_key, delete_device,
  look_up_key, or_look_up, validate_device_key, with_location, device_with_channel,
}
use green_lab.Registry.Channels.{
  CreateChannelInput, UpdateChannelInput, CreateFieldInput, UpdateFieldInput, with_device,
  with_tags, create_channel, update_channel, delete_channel, create_field, update_field,
  delete_field,
}
use green_lab.Registry.Provisioning.{
  ProvisionInput, ProvisionFieldInput, build_fields, insert_fields, provision_with_new_channel,
  provision_with_existing_channel, provision,
}
use green_lab.Registry.Provisioning.Steps.{add_field-done}
use green_lab.Registry.WellFormed.{WellFormed, GoodDevice, GoodChannel, GoodField}
use green_lab.Registry.WellFormed.Calls.{
  Keeps-run_in_tx, Keeps-insert_device, Ensures-get_device_where, Keeps-update_device_rows,
  Keeps-delete_device_rows, Keeps-insert_channel, Ensures-get_channel_row,
  Keeps-update_channel_rows, Keeps-link_channel, Keeps-delete_channel_rows, Keeps-insert_field,
  Keeps-get_field_row, Keeps-update_field_rows, Keeps-delete_field_rows, Keeps-set_cached_device,
  Keeps-get_device_by_api_key, Keeps-delete_cached_device, Keeps-incr_device_version,
  Keeps-set_retention,
}
use green_lab.Registry.WellFormed.Methods.{
  GoodDevice-new_device, GoodDevice-rotate_key, GoodChannel-new_channel, GoodField-new_field,
  GoodDevice-changed_device, GoodChannel-with_retention, with_tags-visibility,
  GoodChannel-changed_channel,
}

module _ (lib : RegistryLib) (down : DbCall → Bool) (now : Time) where
  Keeps-with_location :
      (input : CreateDeviceInput) (d : Device)
      → GoodDevice d
      → GoodDevice (with_location lib down now input d)
  Keeps-with_location input d good = ground arith

  Keeps-device_with_channel :
      (d : Device) (ch : Channel)
      → GoodDevice d
      → GoodChannel ch
      → Keeps WellFormed (device_with_channel lib down now d ch)
  Keeps-device_with_channel d ch good shown =
      Keeps-then WellFormed (Keeps-insert_device down now d good)
        (Keeps-insert_channel down now ch shown)

  pub Keeps-create_device :
      (id : String) (random : Option String) (channel_id : String) (input : CreateDeviceInput)
      → Keeps WellFormed (create_device lib down now id random channel_id input)
  unfolding create_device
  Keeps-create_device id random channel_id input =
      Keeps-bind WellFormed (Keeps-from WellFormed _) (λ workspace_id.
        Ensures-bind WellFormed
          (Ensures-from WellFormed GoodDevice _ (GoodDevice-new_device lib now id random _ _ _))
          (λ created good. Keeps-then WellFormed (Keeps-require WellFormed _ _) (
            Ensures-bind WellFormed
              (Ensures-from WellFormed GoodChannel _
                (GoodChannel-new_channel lib now channel_id _ _ _ _))
              (λ made shown.
                Keeps-bind WellFormed
                  (Keeps-run_in_tx down now
                    (Keeps-device_with_channel _ _ (Keeps-with_location input created good) shown))
                  (λ ch.
                    Keeps-then WellFormed
                      (Keeps-ignore WellFormed (Keeps-set_cached_device down now _))
                      (Keeps-return WellFormed _))))))

  pub Keeps-update_device :
      (text : String) (input : UpdateDeviceInput)
      → Keeps WellFormed (update_device lib down now text input)
  unfolding update_device
  Keeps-update_device text input = Keeps-bind WellFormed (Keeps-from WellFormed _) (λ id.
      Ensures-bind WellFormed (Ensures-get_device_where down now _) (λ d good.
        Ensures-bind WellFormed
          (Ensures-from WellFormed GoodDevice _
            (λ c. GoodDevice-changed_device lib now down input d c good))
          (λ changed better.
            Keeps-then WellFormed (Keeps-update_device_rows down now changed better) (
              Keeps-then WellFormed (Keeps-ignore WellFormed (Keeps-set_cached_device down now _))
                (Keeps-return WellFormed _)))))

  pub Keeps-rotate_api_key :
      (random : Option String) (text : String)
      → Keeps WellFormed (rotate_api_key lib down now random text)
  unfolding rotate_api_key
  Keeps-rotate_api_key random text = Keeps-bind WellFormed (Keeps-from WellFormed _) (λ id.
      Ensures-bind WellFormed (Ensures-get_device_where down now _) (λ d good.
        Ensures-bind WellFormed
          (Ensures-from WellFormed GoodDevice _
            (λ r. GoodDevice-rotate_key lib now random d r good))
          (λ rotated better.
            Keeps-then WellFormed (Keeps-update_device_rows down now rotated better) (
              Keeps-then WellFormed (Keeps-ignore WellFormed (Keeps-set_cached_device down now _)) (
                Keeps-then WellFormed
                  (Keeps-ignore WellFormed (Keeps-incr_device_version down now _))
                  (Keeps-return WellFormed _))))))

  pub Keeps-delete_device : (text : String) → Keeps WellFormed (delete_device lib down now text)
  unfolding delete_device
  Keeps-delete_device text = Keeps-bind WellFormed (Keeps-from WellFormed _) (λ id.
      Ensures-bind WellFormed (Ensures-get_device_where down now _) (λ d good.
        Keeps-bind WellFormed (Keeps-from WellFormed _) (λ deleted.
          Keeps-then WellFormed (Keeps-delete_device_rows down now id) (
            Keeps-then WellFormed
              (Keeps-ignore WellFormed (Keeps-delete_cached_device down now _ _))
              (Keeps-ignore WellFormed (Keeps-incr_device_version down now _))))))

  Keeps-look_up_key : (key : String) → Keeps WellFormed (look_up_key lib down now key)
  unfolding look_up_key
  Keeps-look_up_key key = Ensures-bind WellFormed (Ensures-get_device_where down now _) (λ d good.
      Keeps-then WellFormed (Keeps-ignore WellFormed (Keeps-set_cached_device down now _))
        (Keeps-return WellFormed _))

  or_look_up-WellFormed :
      (key : String) (s : Db) (o : Answer Device)
      → WellFormed s
      → WellFormed (or_look_up lib down now key s o).0
  unfolding or_look_up
  or_look_up-WellFormed key s (done d) wf = wf
  or_look_up-WellFormed key s (failed e) wf = (Keeps-look_up_key key).keeps s wf

  pub Keeps-validate_device_key :
      (key : String) → Keeps WellFormed (validate_device_key lib down now key)
  unfolding validate_device_key
  Keeps-validate_device_key key = Keeps-all WellFormed (λ s wf.
      or_look_up-WellFormed key _ _ ((Keeps-get_device_by_api_key down now key).keeps s wf))

  Ensures-with_device :
      (device : Option String) (ch : Channel)
      → GoodChannel ch
      → Ensures WellFormed GoodChannel (with_device lib down now device ch)
  unfolding return from
  Ensures-with_device none ch good =
      Ensures-from WellFormed GoodChannel (done ch)
        (λ c h. subst GoodChannel (done_injective h) good)
  Ensures-with_device (some text) ch good = Keeps-bind WellFormed (Keeps-from WellFormed _) (λ id.
      Ensures-from WellFormed GoodChannel (done (record ch { device_id = some id }))
        (λ c h. subst GoodChannel (done_injective h) good))

  pub Keeps-create_channel :
      (id : String) (input : CreateChannelInput)
      → Keeps WellFormed (create_channel lib down now id input)
  unfolding create_channel
  Keeps-create_channel id input = Keeps-bind WellFormed (Keeps-from WellFormed _) (λ workspace_id.
      Ensures-bind WellFormed
        (Ensures-from WellFormed GoodChannel _ (GoodChannel-new_channel lib now id _ _ _ _))
        (λ made shown.
          Ensures-bind WellFormed (Ensures-with_device input.device_id made shown) (λ owned good.
            Ensures-bind WellFormed
              (Ensures-from WellFormed GoodChannel _ (λ ch.
                GoodChannel-with_retention lib now down input.retention_days
                  (with_tags lib down now input.tags owned) ch
                  (rw (with_tags-visibility lib now down input.tags owned) good)))
              (λ ch better.
                Keeps-bind WellFormed (Keeps-insert_channel down now ch better) (λ created.
                  Keeps-then WellFormed (Keeps-ignore WellFormed (Keeps-set_retention down now _ _))
                    (Keeps-return WellFormed _))))))

  pub Keeps-update_channel :
      (text : String) (input : UpdateChannelInput)
      → Keeps WellFormed (update_channel lib down now text input)
  unfolding update_channel
  Keeps-update_channel text input = Keeps-bind WellFormed (Keeps-from WellFormed _) (λ id.
      Ensures-bind WellFormed (Ensures-get_channel_row down now id) (λ ch good.
        Ensures-bind WellFormed
          (Ensures-from WellFormed GoodChannel _
            (λ c. GoodChannel-changed_channel lib now down input ch c good))
          (λ changed better.
            Keeps-then WellFormed (Keeps-update_channel_rows down now changed better) (
              Keeps-then WellFormed (Keeps-ignore WellFormed (Keeps-set_retention down now _ _))
                (Keeps-return WellFormed _)))))

  pub Keeps-delete_channel : (text : String) → Keeps WellFormed (delete_channel lib down now text)
  unfolding delete_channel
  Keeps-delete_channel text =
      Keeps-bind WellFormed (Keeps-from WellFormed _) (Keeps-delete_channel_rows down now)

  pub Keeps-create_field :
      (id : String) (input : CreateFieldInput)
      → Keeps WellFormed (create_field lib down now id input)
  unfolding create_field
  Keeps-create_field id input = Keeps-bind WellFormed (Keeps-from WellFormed _) (λ channel_id.
      Ensures-bind WellFormed
        (Ensures-from WellFormed GoodField _ (GoodField-new_field lib now id _ _ _ _ _ _))
        (λ made good.
          Keeps-then WellFormed (Keeps-insert_field down now _ good) (Keeps-return WellFormed _)))

  pub Keeps-update_field :
      (text : String) (input : UpdateFieldInput)
      → Keeps WellFormed (update_field lib down now text input)
  unfolding update_field
  Keeps-update_field text input = Keeps-bind WellFormed (Keeps-from WellFormed _) (λ id.
      Keeps-bind WellFormed (Keeps-get_field_row down now id) (λ f.
        Keeps-bind WellFormed (Keeps-from WellFormed _) (λ changed.
          Keeps-then WellFormed (Keeps-update_field_rows down now changed)
            (Keeps-return WellFormed _))))

  pub Keeps-delete_field : (text : String) → Keeps WellFormed (delete_field lib down now text)
  unfolding delete_field
  Keeps-delete_field text =
      Keeps-bind WellFormed (Keeps-from WellFormed _) (Keeps-delete_field_rows down now)

  All-build_fields :
      (channel_id : String) (inputs : List ProvisionFieldInput) (fs : List Field)
      → build_fields lib down now channel_id inputs ≡ done fs
      → All GoodField fs
  unfolding build_fields
  All-build_fields channel_id [] fs h = subst (All GoodField) (done_injective h) tt
  All-build_fields channel_id (input ∷ inputs) fs h =
      elim (Result-cases (
        new_field lib now input.new_id channel_id input.name input.label input.unit input.field_type
          input.position)) [
            | inr (e, refused) ↦ absurd (ground arith)
            | inl (f, made) ↦
                let (rest, built, same) =
                  add_field-done down now lib f (build_fields lib down now channel_id inputs) fs
                    (rw (build_fields, made) at h) in
                subst (All GoodField) same (
                  GoodField-new_field lib now _ _ _ _ _ _ _ f made,
                  All-build_fields channel_id inputs rest built,
                )
          ]

  Keeps-insert_fields :
      (fs : List Field) → All GoodField fs → Keeps WellFormed (insert_fields lib down now fs)
  unfolding insert_fields
  Keeps-insert_fields [] good = Keeps-return WellFormed tt
  Keeps-insert_fields (f ∷ fs) good =
      Keeps-then WellFormed (Keeps-insert_field down now f good.0) (Keeps-insert_fields fs good.1)

  Keeps-provision_with_new_channel :
      (channel_id : String) (input : ProvisionInput) (workspace_id : String) (d : Device)
      → GoodDevice d
      → Keeps WellFormed (provision_with_new_channel lib down now channel_id input workspace_id d)
  unfolding provision_with_new_channel
  Keeps-provision_with_new_channel channel_id input workspace_id d good =
      Ensures-bind WellFormed
        (Ensures-from WellFormed GoodChannel _ (GoodChannel-new_channel lib now channel_id _ _ _ _))
        (λ made shown.
          Ensures-bind WellFormed
            (Ensures-from WellFormed (All GoodField) _ (All-build_fields channel_id input.fields))
            (λ fields all.
              Keeps-bind WellFormed
                (Keeps-run_in_tx down now (
                  Keeps-then WellFormed (Keeps-insert_device down now d good) (
                    Keeps-bind WellFormed (Keeps-insert_channel down now _ shown) (λ created.
                      Keeps-then WellFormed (Keeps-insert_fields fields all)
                        (Keeps-return WellFormed _)))))
                (λ ch.
                  Keeps-then WellFormed
                    (Keeps-ignore WellFormed (Keeps-set_cached_device down now _))
                    (Keeps-return WellFormed _))))

  Keeps-provision_with_existing_channel :
      (input : ProvisionInput) (workspace_id : String) (d : Device)
      → GoodDevice d
      → Keeps WellFormed (provision_with_existing_channel lib down now input workspace_id d)
  unfolding provision_with_existing_channel
  Keeps-provision_with_existing_channel input workspace_id d good =
      Keeps-bind WellFormed (Keeps-from WellFormed _) (λ channel_id.
        Ensures-bind WellFormed (Ensures-get_channel_row down now channel_id) (λ ch shown.
          Keeps-then WellFormed (Keeps-require WellFormed _ _) (
            Ensures-bind WellFormed
              (Ensures-from WellFormed (All GoodField) _ (All-build_fields ch.id input.fields))
              (λ fields all.
                Keeps-then WellFormed
                  (Keeps-run_in_tx down now (
                    Keeps-then WellFormed (Keeps-insert_device down now d good) (
                      Keeps-then WellFormed (Keeps-link_channel down now _)
                        (Keeps-insert_fields fields all))))
                  (Keeps-then WellFormed
                    (Keeps-ignore WellFormed (Keeps-set_cached_device down now _))
                    (Keeps-return WellFormed _))))))

  pub Keeps-provision :
      (id : String) (random : Option String) (channel_id : String) (input : ProvisionInput)
      → Keeps WellFormed (provision lib down now id random channel_id input)
  unfolding provision
  Keeps-provision id random channel_id input =
      Keeps-bind WellFormed (Keeps-from WellFormed _) (λ workspace_id.
        Ensures-bind WellFormed
          (Ensures-from WellFormed GoodDevice _ (GoodDevice-new_device lib now id random _ _ _))
          (λ d good.
            Ensures-if WellFormed _
              (Keeps-provision_with_new_channel channel_id input workspace_id d good)
              (Keeps-provision_with_existing_channel input workspace_id d good)))
