-- ===== src/Registry/Provisioning/Graphs.antt =====
-- What a call of Provision that succeeds has added.
use green_lab.Prelude.{
  ℕ, suc, none, get_elem?, ◌&&◌, if◌then◌else◌, ◌≡◌, refl, sym, ◌∙◌, ap, subst, String, Bool, true,
  false, Option, some, List, [], ◌∷◌, ◌++◌, map, All, str_eq, eq_iff, arith,
}
use green_lab.Prelude.Actions.{done, failed, find_row, ◌>>◌, return, ignore}
use green_lab.Prelude.Actions.Gives.{
  Gives, bind-Gives, from-Gives, ignore-Gives, require-Gives, return-Gives,
}
use green_lab.Ingestion.Domain.{Time}
use green_lab.Registry.Device.{Answer, uuid_error, Device, RegistryLib, new_device}
use green_lab.Registry.Channel.{Channel, Field, new_channel, set_device}
use green_lab.Registry.Tables.{Db, DbCall, is_present, is_present-none, link_channel_row}
use green_lab.Registry.Integers.{pos}
use green_lab.Prelude.Tables.{find_row-get_elem?}
use green_lab.Registry.Cache.{set_cached_device}
use green_lab.Registry.Provisioning.{
  ProvisionFieldInput, ProvisionInput, ProvisionResult, provision_with_new_channel,
  provision_with_existing_channel, provision,
}
use green_lab.Registry.Provisioning.Steps.{
  columns, wanted, device_row, field_row, get_channel_row-Gives, run_in_tx-Gives, build_fields-All,
  new_graph-Gives, linked_graph-Gives, set_cached_device-Tables,
}

module _ (down : DbCall → Bool) (now : Time) where
  module _ (lib : RegistryLib) where
    parsed_id :
        (text id : String)
        → (elim (lib.parse_uuid text) as (λ _. Answer String) [
          | none ↦ failed uuid_error
          | some i ↦ done i
        ])
          ≡ done id
        → lib.parse_uuid text ≡ some id
    parsed_id text id h = ground arith

    new_channel-id :
        (id workspace_id name description visibility : String) (ch : Channel)
        → new_channel lib now id workspace_id name description visibility ≡ done ch
        → (ch.id ≡ id) × (ch.workspace_id ≡ workspace_id)
    unfolding new_channel
    new_channel-id id workspace_id name description visibility ch h = (ground arith, ground arith)

    new_device-id :
        (id : String) (random : Option String) (workspace_id name description : String) (d : Device)
        → new_device lib now id random workspace_id name description ≡ done d
        → (d.id ≡ id) × (d.workspace_id ≡ workspace_id)
    unfolding new_device
    new_device-id id random workspace_id name description d h = (ground arith, ground arith)

    -- What follows the transaction: the cache, and the result.
    finish-Gives :
        {A : Type 0} (d : Device) (result r : A) (s t : Db)
        → Gives (ignore (set_cached_device down now d) >> return result) s r t
        → (t.devices ≡ s.devices) × (t.channels ≡ s.channels) × (t.fields ≡ s.fields) × (result ≡ r)
    finish-Gives d result r s t h =
        let (x, u, hu, h1) = bind-Gives _ _ s t r h in
        let (t_is, r_is) = return-Gives r result u t h1 in
        let u_is = t_is ∙ ignore-Gives _ s u x hu in
        let (devices, channels, fields) = set_cached_device-Tables down now d s in
        (
          ap (λ (q : Db). q.devices) u_is ∙ devices,
          ap (λ (q : Db). q.channels) u_is ∙ channels,
          ap (λ (q : Db). q.fields) u_is ∙ fields,
          r_is,
        )

    -- The row of a channel: the moments are the database's, and the retention is its default.
    abbrev pub stored_channel : Channel → Channel
    stored_channel ch = record {
      id = ch.id;
      short_id = ch.short_id;
      workspace_id = ch.workspace_id;
      device_id = ch.device_id;
      name = ch.name;
      description = ch.description;
      visibility = ch.visibility;
      tags = ch.tags;
      retention_days = pos 90;
      created_at = now;
      updated_at = now;
      deleted_at = none;
    }

    -- The rows of a result with a new channel.
    abbrev pub AddsGraph : String → Db → Db → ProvisionResult → List ProvisionFieldInput → Type 0
    AddsGraph channel_id s t r inputs =
        (t.devices ≡ s.devices ++ device_row now r.device ∷ [])
        × (t.channels ≡ s.channels ++ stored_channel r.channel ∷ [])
        × (t.fields ≡ s.fields ++ map (field_row now) r.fields)
        × (r.channel.id ≡ channel_id)
        × (r.channel.short_id ≡ suc s.last_short_id)
        × (r.channel.device_id ≡ some r.device.id)
        × (r.channel.workspace_id ≡ r.device.workspace_id)
        × All (λ (f : Field). f.channel_id ≡ r.channel.id) r.fields
        × (map columns r.fields ≡ map wanted inputs)

    provision_with_new_channel-Gives :
        (channel_id : String) (input : ProvisionInput) (workspace_id : String) (d : Device)
        (s t : Db) (r : ProvisionResult)
        → d.workspace_id ≡ workspace_id
        → Gives (provision_with_new_channel lib down now channel_id input workspace_id d) s r t
        → (r.device ≡ d) × AddsGraph channel_id s t r input.fields
    unfolding provision_with_new_channel
    provision_with_new_channel-Gives channel_id input workspace_id d s t r own h =
        let (made, a, ha, h1) = bind-Gives _ _ s t r h in
        let (is_made, a_is) = from-Gives _ s a made ha in
        let (fields, b, hb, h2) = bind-Gives _ _ a t r h1 in
        let (built, b_is) = from-Gives _ a b fields hb in
        let (ch, c, hc, h3) = bind-Gives _ _ b t r h2 in
        let (t_devices, t_channels, t_fields, r_is) = finish-Gives d _ r c t h3 in
        let (c_is, ch_is) =
          new_graph-Gives down now lib d (set_device now d.id made) fields b c ch
            (run_in_tx-Gives down now _ b c ch hc) in
        let (owned, count) = build_fields-All down now lib channel_id input.fields fields built in
        let before = b_is ∙ a_is in
        let (made_id, made_in) = new_channel-id channel_id _ _ _ _ made is_made in
        let id_is = ap (λ (q : Channel). q.id) ch_is ∙ made_id in
        subst (λ (q : ProvisionResult). (q.device ≡ d) × AddsGraph channel_id s t q input.fields)
          r_is
          (
            refl,
            (
              t_devices
                  ∙ ap (λ (q : Db). q.devices) c_is
                  ∙ ap (λ (q : Db). q.devices ++ device_row now d ∷ []) before,
              t_channels
                  ∙ ap (λ (q : Db). q.channels) c_is
                  ∙ ap (λ (q : Channel). b.channels ++ stored_channel q ∷ []) (sym ch_is)
                  ∙ ap (λ (q : Db). q.channels ++ stored_channel ch ∷ []) before,
              t_fields
                  ∙ ap (λ (q : Db). q.fields) c_is
                  ∙ ap (λ (q : Db). q.fields ++ map (field_row now) fields) before,
              id_is,
              ap (λ (q : Channel). q.short_id) ch_is ∙ ap (λ (q : Db). suc q.last_short_id) before,
              ap (λ (q : Channel). q.device_id) ch_is,
              ap (λ (q : Channel). q.workspace_id) ch_is ∙ made_in ∙ sym own,
              subst (λ i. All (λ (f : Field). f.channel_id ≡ i) fields) (sym id_is) owned,
              count,
            ),
          )

    -- If Provision succeeds and no channel is named, then exactly three things have been added: the
    -- device of the result, with the new ID and in the given workspace; its channel, in the same
    -- workspace, whose row has the device's ID, the next short ID and the default retention; and its
    -- fields, exactly those that were asked for, in order, each with the channel's ID. Nothing else in
    -- the tables has changed.
    pub provision-AddsGraph :
        (id : String) (random : Option String) (channel_id : String) (input : ProvisionInput)
        (s t : Db) (r : ProvisionResult)
        → input.existing_channel_id ≡ ""
        → provision lib down now id random channel_id input s ≡ (t, done r)
        → (r.device.id ≡ id)
          × (lib.parse_uuid input.workspace_id ≡ some r.device.workspace_id)
          × AddsGraph channel_id s t r input.fields
    unfolding provision
    provision-AddsGraph id random channel_id input s t r new h =
        let (workspace_id, a, ha, h1) = bind-Gives _ _ s t r h in
        let (parsed, a_is) = from-Gives _ s a workspace_id ha in
        let (d, b, hb, h2) = bind-Gives _ _ a t r h1 in
        let (made, b_is) = from-Gives _ a b d hb in
        let (d_id, own) = new_device-id id random workspace_id _ _ d made in
        let is_new : str_eq input.existing_channel_id "" ≡ true = rw new refl in
        let run : Gives (provision_with_new_channel lib down now channel_id input workspace_id d) b
            r t =
          rw is_new at h2 in
        let (same, added) =
          provision_with_new_channel-Gives channel_id input workspace_id d b t r own run in
        (
          ap (λ (q : Device). q.id) same ∙ d_id,
          parsed_id _ workspace_id parsed
              ∙ ap some (sym own)
              ∙ ap (λ (q : Device). some q.workspace_id) (sym same),
          subst (λ q. AddsGraph channel_id q t r input.fields) (b_is ∙ a_is) added,
        )

    -- The named channel is there, is not deleted and is of the workspace.
    abbrev pub IsNamed : String → String → List Channel → Type 0
    IsNamed id workspace_id channels =
        (i : ℕ) × (ch : Channel) × (get_elem? channels i ≡ some ch)
        × (ch.id ≡ id)
        × (ch.deleted_at ≡ none)
        × (ch.workspace_id ≡ workspace_id)

    -- The rows of a result with the channel that was named, and whose row alone changes.
    abbrev pub LinksGraph : Db → Db → ProvisionResult → List ProvisionFieldInput → Type 0
    LinksGraph s t r inputs =
        (t.devices ≡ s.devices ++ device_row now r.device ∷ [])
        × (t.channels
            ≡ map
                (λ (row : Channel).
                  if str_eq row.id r.channel.id
                  then record row { device_id = some r.device.id; updated_at = now }
                  else row)
                s.channels)
        × (t.fields ≡ s.fields ++ map (field_row now) r.fields)
        × IsNamed r.channel.id r.device.workspace_id s.channels
        × (r.channel.device_id ≡ some r.device.id)
        × (r.channel.workspace_id ≡ r.device.workspace_id)
        × All (λ (f : Field). f.channel_id ≡ r.channel.id) r.fields
        × (map columns r.fields ≡ map wanted inputs)

    row-IsNamed :
        (id : String) (channels : List Channel) (row : Channel)
        → find_row (λ r. str_eq r.id id && is_present r.deleted_at) channels ≡ some row
        → (row.id ≡ id) × IsNamed row.id row.workspace_id channels
    unfolding is_present
    row-IsNamed id channels row found =
        let ((i, at), fits) =
          find_row-get_elem? (λ r. str_eq r.id id && is_present r.deleted_at) channels row found in
        let same : str_eq row.id id ≡ true = ground arith in
        (
          (eq_iff row.id id).0 same,
          (i, row, at, refl, is_present-none row.deleted_at (ground arith), refl),
        )

    provision_with_existing_channel-Gives :
        (input : ProvisionInput) (workspace_id : String) (d : Device) (s t : Db)
        (r : ProvisionResult)
        → d.workspace_id ≡ workspace_id
        → Gives (provision_with_existing_channel lib down now input workspace_id d) s r t
        → (r.device ≡ d)
          × (lib.parse_uuid input.existing_channel_id ≡ some r.channel.id)
          × LinksGraph s t r input.fields
    unfolding provision_with_existing_channel
    provision_with_existing_channel-Gives input workspace_id d s t r own h =
        let (channel_id, a, ha, h1) = bind-Gives _ _ s t r h in
        let (parsed, a_is) = from-Gives _ s a channel_id ha in
        let (ch, b, hb, h2) = bind-Gives _ _ a t r h1 in
        let (b_is, row, found, ch_is) = get_channel_row-Gives down now channel_id a b ch hb in
        let (x, c, hc, h3) = bind-Gives _ _ b t r h2 in
        let (same, c_is) = require-Gives _ _ b c x hc in
        let (fields, e, he, h4) = bind-Gives _ _ c t r h3 in
        let (built, e_is) = from-Gives _ c e fields he in
        let (y, f, hf, h5) = bind-Gives _ _ e t r h4 in
        let linked = set_device now d.id ch in
        let f_is =
          linked_graph-Gives down now lib d linked fields e f y
            (run_in_tx-Gives down now _ e f y hf) in
        let (t_devices, t_channels, t_fields, r_is) = finish-Gives d _ r f t h5 in
        let (owned, count) = build_fields-All down now lib ch.id input.fields fields built in
        let before = e_is ∙ c_is ∙ b_is ∙ a_is in
        let (row_id, named) = row-IsNamed channel_id a.channels row found in
        let id_is = ap (λ (q : Channel). q.id) ch_is in
        let inside = (eq_iff ch.workspace_id workspace_id).0 same ∙ sym own in
        let named_ch =
          subst (λ (q : Channel). IsNamed q.id q.workspace_id a.channels) (sym ch_is) named in
        subst
          (λ (q : ProvisionResult).
            (q.device ≡ d)
            × (lib.parse_uuid input.existing_channel_id ≡ some q.channel.id)
            × LinksGraph s t q input.fields)
          r_is
          (
            refl,
            parsed_id _ channel_id parsed ∙ ap some (sym (id_is ∙ row_id)),
            (
              t_devices
                  ∙ ap (λ (q : Db). q.devices) f_is
                  ∙ ap (λ (q : Db). q.devices ++ device_row now d ∷ []) before,
              t_channels
                  ∙ ap (λ (q : Db). q.channels) f_is
                  ∙ ap (λ (q : Db). map (link_channel_row now linked) q.channels) before,
              t_fields
                  ∙ ap (λ (q : Db). q.fields) f_is
                  ∙ ap (λ (q : Db). q.fields ++ map (field_row now) fields) before,
              subst (λ (q : Db). IsNamed ch.id d.workspace_id q.channels) a_is
                  (subst (λ w. IsNamed ch.id w a.channels) inside named_ch),
              refl,
              inside,
              owned,
              count,
            ),
          )

    -- If Provision succeeds and a channel is named, then the named channel was there, not deleted and
    -- in the given workspace; the device of the result, with the new ID and in that workspace, and its
    -- fields, exactly those that were asked for, in order, each with the channel's ID, have been added;
    -- the channel's row has the device's ID, and nothing else in the tables has changed.
    pub provision-LinksGraph :
        (id : String) (random : Option String) (channel_id : String) (input : ProvisionInput)
        (s t : Db) (r : ProvisionResult)
        → str_eq input.existing_channel_id "" ≡ false
        → provision lib down now id random channel_id input s ≡ (t, done r)
        → (r.device.id ≡ id)
          × (lib.parse_uuid input.workspace_id ≡ some r.device.workspace_id)
          × (lib.parse_uuid input.existing_channel_id ≡ some r.channel.id)
          × LinksGraph s t r input.fields
    unfolding provision
    provision-LinksGraph id random channel_id input s t r old h =
        let (workspace_id, a, ha, h1) = bind-Gives _ _ s t r h in
        let (parsed, a_is) = from-Gives _ s a workspace_id ha in
        let (d, b, hb, h2) = bind-Gives _ _ a t r h1 in
        let (made, b_is) = from-Gives _ a b d hb in
        let (d_id, own) = new_device-id id random workspace_id _ _ d made in
        let run : Gives (provision_with_existing_channel lib down now input workspace_id d) b r t =
          rw old at h2 in
        let (same, channel, linked) =
          provision_with_existing_channel-Gives input workspace_id d b t r own run in
        (
          ap (λ (q : Device). q.id) same ∙ d_id,
          parsed_id _ workspace_id parsed
              ∙ ap some (sym own)
              ∙ ap (λ (q : Device). some q.workspace_id) (sym same),
          channel,
          subst (λ q. LinksGraph q t r input.fields) (b_is ∙ a_is) linked,
        )
