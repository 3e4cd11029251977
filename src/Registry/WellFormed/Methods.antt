-- ===== src/Registry/WellFormed/Methods.antt =====
-- The constructors and the methods of the domain give good devices, channels and fields.
use green_lab.Prelude.{
  ◌≡◌, refl, subst, String, Bool, Bool-cases, inl, inr, Option, none, some, List, [], ◌∷◌, str_eq,
  arith, if◌then◌else◌,
}
use green_lab.Prelude.Actions.{done}
use green_lab.Prelude.Actions.Gives.{done_injective, Result-cases}
use green_lab.Ingestion.Domain.{Time}
use green_lab.Registry.Integers.{ℤ, within, is_zero}
use green_lab.Registry.Device.{
  Answer, Device, RegistryLib, new_device, is_status, set_device_name, set_status, rotate_key,
}
use green_lab.Registry.Channel.{
  Channel, Field, is_visibility, is_field_type, new_channel, set_channel_name, set_visibility,
  set_retention_days, new_field, text_or,
}
use green_lab.Registry.Tables.{DbCall}
use green_lab.Registry.Devices.{UpdateDeviceInput, changed_device}
use green_lab.Registry.Channels.{
  UpdateChannelInput, with_tags, with_retention, changed_channel, with_new_tags,
}
use green_lab.Registry.WellFormed.{GoodDevice, GoodChannel, GoodField}

module _ (lib : RegistryLib) (now : Time) where
  pub GoodDevice-new_device :
      (id : String) (random : Option String) (workspace_id name description : String) (d : Device)
      → new_device lib now id random workspace_id name description ≡ done d
      → GoodDevice d
  unfolding new_device is_status
  GoodDevice-new_device id random workspace_id name description d h =
      let status : d.status ≡ "active" = ground arith in rw status refl

  set_device_name-status :
      (name : String) (d named : Device)
      → set_device_name lib now name d ≡ done named
      → named.status ≡ d.status
  unfolding set_device_name
  set_device_name-status name d named h = ground arith

  GoodDevice-set_status :
      (status : String) (d changed : Device)
      → set_status now status d ≡ done changed
      → GoodDevice changed
  unfolding set_status
  GoodDevice-set_status status d changed h = elim (Bool-cases (is_status status)) [
    | inr bad ↦ absurd (ground arith)
    | inl good ↦ let same : changed.status ≡ status = ground arith in rw same good
  ]

  pub GoodDevice-rotate_key :
      (random : Option String) (d rotated : Device)
      → GoodDevice d
      → rotate_key now random d ≡ done rotated
      → GoodDevice rotated
  unfolding rotate_key
  GoodDevice-rotate_key random d rotated good h =
      let same : rotated.status ≡ d.status = ground arith in rw same good

  pub GoodChannel-new_channel :
      (id workspace_id name description visibility : String) (ch : Channel)
      → new_channel lib now id workspace_id name description visibility ≡ done ch
      → GoodChannel ch
  unfolding new_channel
  GoodChannel-new_channel id workspace_id name description visibility ch h =
      elim (Bool-cases (is_visibility (text_or visibility "private"))) [
        | inr bad ↦ absurd (ground arith)
        | inl good ↦
            let same : ch.visibility ≡ text_or visibility "private" = ground arith in rw same good
      ]

  set_channel_name-visibility :
      (name : String) (ch named : Channel)
      → set_channel_name lib now name ch ≡ done named
      → named.visibility ≡ ch.visibility
  unfolding set_channel_name
  set_channel_name-visibility name ch named h = ground arith

  GoodChannel-set_visibility :
      (v : String) (ch shown : Channel) → set_visibility now v ch ≡ done shown → GoodChannel shown
  unfolding set_visibility
  GoodChannel-set_visibility v ch shown h = elim (Bool-cases (is_visibility v)) [
    | inr bad ↦ absurd (ground arith)
    | inl good ↦ let same : shown.visibility ≡ v = ground arith in rw same good
  ]

  set_retention_days-visibility :
      (days : ℤ) (ch kept : Channel)
      → set_retention_days now days ch ≡ done kept
      → kept.visibility ≡ ch.visibility
  unfolding set_retention_days
  set_retention_days-visibility days ch kept h = ground arith

  pub GoodField-new_field :
      (id channel_id name label unit field_type : String) (position : ℤ) (f : Field)
      → new_field lib now id channel_id name label unit field_type position ≡ done f
      → GoodField f
  unfolding new_field
  GoodField-new_field id channel_id name label unit field_type position f h =
      elim (Bool-cases (within 1 8 position)) [
        | inr bad ↦ absurd (ground arith)
        | inl near ↦ elim (Bool-cases (is_field_type (text_or field_type "float"))) [
          | inr bad ↦ absurd (ground arith)
          | inl good ↦
              let at : f.position ≡ position = ground arith in
              let same : f.field_type ≡ text_or field_type "float" = ground arith in
              (rw at near, rw same good)
        ]
      ]

  renamed-status :
      (input : UpdateDeviceInput) (d named : Device)
      → (if str_eq input.name "" then done d else set_device_name lib now input.name d) ≡ done named
      → named.status ≡ d.status
  renamed-status input d named h = elim (Bool-cases (str_eq input.name "")) [
    | inl empty ↦ let same : d ≡ named = done_injective (rw empty at h) in rw same refl
    | inr given ↦ set_device_name-status input.name d named (rw given at h)
  ]

  pub GoodDevice-changed_device :
      (down : DbCall → Bool) (input : UpdateDeviceInput) (d changed : Device)
      → GoodDevice d
      → changed_device lib down now input d ≡ done changed
      → GoodDevice changed
  unfolding changed_device
  GoodDevice-changed_device down input d changed good h =
      let step : Answer Device =
        if str_eq input.name "" then done d else set_device_name lib now input.name d in
      elim (Result-cases step) [
        | inr (e, refused) ↦ absurd (ground arith)
        | inl (named, e) ↦
            let status = renamed-status input d named e in
            elim (Bool-cases (str_eq input.status "")) [
              | inl empty ↦
                  let same : changed.status ≡ named.status = ground arith in rw (same, status) good
              | inr given ↦
                  GoodDevice-set_status input.status
                    (record named { description = text_or input.description named.description })
                    changed (ground arith)
            ]
      ]

  renamed-visibility :
      (input : UpdateChannelInput) (ch named : Channel)
      → (if str_eq input.name "" then done ch else set_channel_name lib now input.name ch)
        ≡ done named
      → named.visibility ≡ ch.visibility
  renamed-visibility input ch named h = elim (Bool-cases (str_eq input.name "")) [
    | inl empty ↦ let same : ch ≡ named = done_injective (rw empty at h) in rw same refl
    | inr given ↦ set_channel_name-visibility input.name ch named (rw given at h)
  ]

  GoodChannel-shown :
      (v : String) (ch shown : Channel)
      → GoodChannel ch
      → (if str_eq v "" then done ch else set_visibility now v ch) ≡ done shown
      → GoodChannel shown
  GoodChannel-shown v ch shown good h = elim (Bool-cases (str_eq v "")) [
    | inl empty ↦
        let same : ch ≡ shown = done_injective (rw empty at h) in subst GoodChannel same good
    | inr given ↦ GoodChannel-set_visibility v ch shown (rw given at h)
  ]

  pub GoodChannel-with_retention :
      (down : DbCall → Bool) (days : ℤ) (ch kept : Channel)
      → GoodChannel ch
      → with_retention lib down now days ch ≡ done kept
      → GoodChannel kept
  GoodChannel-with_retention down days ch kept good h = elim (Bool-cases (is_zero days)) [
    | inl zero_days ↦
        let same : ch ≡ kept = done_injective (rw zero_days at h) in subst GoodChannel same good
    | inr some_days ↦
        let same = set_retention_days-visibility days ch kept (rw some_days at h) in rw same good
  ]

  with_new_tags-visibility :
      (down : DbCall → Bool) (tags : Option (List String)) (ch : Channel)
      → (with_new_tags lib down now tags ch).visibility ≡ ch.visibility
  with_new_tags-visibility down none ch = refl
  with_new_tags-visibility down (some ts) ch = refl

  pub with_tags-visibility :
      (down : DbCall → Bool) (tags : List String) (ch : Channel)
      → (with_tags lib down now tags ch).visibility ≡ ch.visibility
  with_tags-visibility down [] ch = refl
  with_tags-visibility down (t ∷ ts) ch = refl

  pub GoodChannel-changed_channel :
      (down : DbCall → Bool) (input : UpdateChannelInput) (ch changed : Channel)
      → GoodChannel ch
      → changed_channel lib down now input ch ≡ done changed
      → GoodChannel changed
  unfolding changed_channel
  GoodChannel-changed_channel down input ch changed good h =
      let step : Answer Channel =
        if str_eq input.name "" then done ch else set_channel_name lib now input.name ch in
      elim (Result-cases step) [
        | inr (e, refused) ↦ absurd (ground arith)
        | inl (named, e) ↦
            let described = record named {
              description = text_or input.description named.description;
            } in
            let next : Answer Channel =
              if str_eq input.visibility ""
              then done described
              else set_visibility now input.visibility described in
            elim (Result-cases next) [
              | inr (x, refused) ↦ absurd (ground arith)
              | inl (shown, f) ↦
                  let status = renamed-visibility input ch named e in
                  let good_shown =
                    GoodChannel-shown input.visibility described shown (rw status good) f in
                  GoodChannel-with_retention down input.retention_days
                    (with_new_tags lib down now input.tags shown) changed
                    (rw (with_new_tags-visibility down input.tags shown) good_shown) (ground arith)
            ]
      ]
