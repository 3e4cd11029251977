-- ===== src/Registry/Provisioning/Steps.antt =====
-- What the calls of the database and the transactions of Provision have done if they succeed.
use green_lab.Prelude.{
  ◌≡◌, refl, sym, ◌∙◌, ap, subst, String, Bool, Bool-cases, inl, inr, suc, Option, none, some,
  str_eq, if◌then◌else◌, ◌&&◌, List, [], ◌∷◌, ◌++◌, map, All, arith,
}
use mathlib.Core.List.{append_assoc, append-nil}
use green_lab.Prelude.Actions.{done, failed, find_row}
use green_lab.Prelude.Actions.Gives.{Gives, bind-Gives, return-Gives, done_injective, Result-cases}
use green_lab.Ingestion.Domain.{Time}
use green_lab.Registry.Integers.{ℤ, pos}
use green_lab.Registry.Device.{Answer, channel_not_found, Device, RegistryLib}
use green_lab.Registry.Channel.{Channel, Field, new_field, text_or}
use green_lab.Registry.Tables.{
  Db, DbCall, tx_begin, channel_get, is_present, Step, insert_device, insert_channel, channel_row,
  get_channel_row, link_channel, link_channel_row,
}
use green_lab.Registry.Cache.{insert_field, set_cached_device, run_in_tx, committed}
use green_lab.Registry.Provisioning.{
  ProvisionFieldInput, build_fields, add_field, insert_fields, new_graph, linked_graph,
}

-- The rows that are inserted: the moments are the database's.
abbrev pub device_row : Time → Device → Device
device_row now d = record d { created_at = now; updated_at = now; deleted_at = none }

abbrev pub field_row : Time → Field → Field
field_row now f = record f { created_at = now; updated_at = now }

read_row-Gives :
    (s t : Db) (ch : Channel) (o : Option Channel)
    → (elim o as (λ _. Db × Answer Channel) [
      | none ↦ (s, failed channel_not_found)
      | some row ↦ (s, done (record row { retention_days = pos 0 }))
    ])
      ≡ (t, done ch)
    → (t ≡ s) × (row : Channel) × (o ≡ some row) × (ch ≡ record row { retention_days = pos 0 })
read_row-Gives s t ch none h = absurd (cc)
read_row-Gives s t ch (some row) h =
    (sym (ap (λ p. p.0) h), row, refl, sym (done_injective (ap (λ p. p.1) h)))

-- What a field is asked to be.
abbrev pub Columns : Type 0
Columns = String × String × String × String × String × ℤ

abbrev pub columns : Field → Columns
columns f = (f.id, f.name, f.label, f.unit, f.field_type, f.position)

-- A field is of type float unless another one is given.
abbrev pub wanted : ProvisionFieldInput → Columns
wanted input = (
  input.new_id,
  input.name,
  input.label,
  input.unit,
  if str_eq input.field_type "" then "float" else input.field_type,
  input.position,
)

module _ (down : DbCall → Bool) (now : Time) where
  insert_device-Gives :
      (d : Device) (s t : Db) (x : Unit)
      → Gives (insert_device down now d) s x t
      → t ≡ record s { devices = s.devices ++ device_row now d ∷ [] }
  unfolding insert_device
  insert_device-Gives d s t x h = ground arith

  insert_channel-Gives :
      (ch : Channel) (s t : Db) (c : Channel)
      → Gives (insert_channel down now ch) s c t
      → (t ≡ record s {
        channels = s.channels ++ channel_row down now ch (suc s.last_short_id) ∷ [];
        last_short_id = suc s.last_short_id;
      })
        × (c ≡ record ch { short_id = suc s.last_short_id })
  unfolding insert_channel
  insert_channel-Gives ch s t c h = (ground arith, ground arith)

  insert_field-Gives :
      (f : Field) (s t : Db) (x : Unit)
      → Gives (insert_field down now f) s x t
      → t ≡ record s { fields = s.fields ++ field_row now f ∷ [] }
  unfolding insert_field
  insert_field-Gives f s t x h = ground arith

  committed-Gives :
      {A : Type 0} (s t : Db) (out : Db × Answer A) (a : A)
      → committed down now s out ≡ (t, done a)
      → out ≡ (t, done a)
  unfolding committed
  committed-Gives s t (u, failed e) a h = absurd (cc)
  committed-Gives s t (u, done b) a h = ground arith

  pub run_in_tx-Gives :
      {A : Type 0} (m : Step A) (s t : Db) (a : A)
      → Gives (run_in_tx down now m) s a t
      → Gives m s a t
  unfolding run_in_tx
  run_in_tx-Gives m s t a h = elim (Bool-cases (down tx_begin)) [
    | inl d ↦ absurd (ground arith)
    | inr d ↦ committed-Gives s t (m s) a (rw d at h)
  ]

  -- Nothing else runs in the transaction: the cache is written afterwards.
  pub set_cached_device-Tables :
      (d : Device) (s : Db)
      → let t = (set_cached_device down now d s).0 in
        (t.devices ≡ s.devices) × (t.channels ≡ s.channels) × (t.fields ≡ s.fields)
  unfolding set_cached_device
  set_cached_device-Tables d s = (ground arith, ground arith, ground arith)

  link_channel-Gives :
      (ch : Channel) (s t : Db) (x : Unit)
      → Gives (link_channel down now ch) s x t
      → t ≡ record s { channels = map (link_channel_row now ch) s.channels }
  unfolding link_channel
  link_channel-Gives ch s t x h = ground arith

  -- The row of the channel, which is not deleted; the retention is not read.
  pub get_channel_row-Gives :
      (id : String) (s t : Db) (ch : Channel)
      → Gives (get_channel_row down now id) s ch t
      → (t ≡ s)
        × (row : Channel) × (find_row (λ r. str_eq r.id id && is_present r.deleted_at) s.channels
            ≡ some row)
        × (ch ≡ record row { retention_days = pos 0 })
  unfolding get_channel_row is_present
  get_channel_row-Gives id s t ch h = elim (Bool-cases (down channel_get)) [
    | inl d ↦ absurd (ground arith)
    | inr d ↦
        read_row-Gives s t ch (find_row (λ r. str_eq r.id id && is_present r.deleted_at) s.channels)
          (rw d at h)
  ]

  module _ (lib : RegistryLib) where
    insert_fields-Gives :
        (fs : List Field) (s t : Db) (x : Unit)
        → Gives (insert_fields lib down now fs) s x t
        → t ≡ record s { fields = s.fields ++ map (field_row now) fs }
    unfolding insert_fields
    insert_fields-Gives [] s t x h =
        let (same, _) = return-Gives x tt s t h in
        same ∙ ap (λ fs. record s { fields = fs }) (sym (append-nil s.fields))
    insert_fields-Gives (f ∷ fs) s t x h =
        let (y, u, hf, h1) = bind-Gives _ _ s t x h in
        let u_is = insert_field-Gives f s u y hf in
        insert_fields-Gives fs u t x h1
        ∙ ap (λ (v : Db). record v { fields = v.fields ++ map (field_row now) fs }) u_is
        ∙ ap (λ rows. record s { fields = rows })
            (append_assoc s.fields (field_row now f ∷ []) (map (field_row now) fs))

    new_field-done :
        (id channel_id name label unit field_type : String) (position : ℤ) (f : Field)
        → new_field lib now id channel_id name label unit field_type position ≡ done f
        → (f.channel_id ≡ channel_id)
          × (columns f ≡ (id, name, label, unit, text_or field_type "float", position))
    unfolding new_field
    new_field-done id channel_id name label unit field_type position f h =
        (ground arith, ground arith)

    pub add_field-done :
        (f : Field) (o : Answer (List Field)) (fs : List Field)
        → add_field lib down now f o ≡ done fs
        → (rest : List Field) × (o ≡ done rest) × (f ∷ rest ≡ fs)
    add_field-done f (failed e) fs h = absurd (cc)
    add_field-done f (done rest) fs h = (rest, refl, done_injective h)

    -- All the fields belong to the channel and are those that are asked for.
    pub build_fields-All :
        (channel_id : String) (inputs : List ProvisionFieldInput) (fs : List Field)
        → build_fields lib down now channel_id inputs ≡ done fs
        → All (λ (f : Field). f.channel_id ≡ channel_id) fs × (map columns fs ≡ map wanted inputs)
    unfolding build_fields
    build_fields-All channel_id [] fs h =
        let same = done_injective h in
        subst (λ gs. All (λ (f : Field). f.channel_id ≡ channel_id) gs × (map columns gs ≡ [])) same
          (tt, refl)
    build_fields-All channel_id (input ∷ inputs) fs h =
        elim (Result-cases (
          new_field lib now input.new_id channel_id input.name input.label input.unit
            input.field_type input.position)) [
              | inr (e, refused) ↦ absurd (ground arith)
              | inl (f, made) ↦
                  let (rest, built, same) =
                    add_field-done f (build_fields lib down now channel_id inputs) fs
                      (rw (build_fields, made) at h) in
                  let (owned, count) = build_fields-All channel_id inputs rest built in
                  let (owner, asked) = new_field-done _ _ _ _ _ _ _ f made in
                  subst
                    (λ gs.
                      All (λ (g : Field). g.channel_id ≡ channel_id) gs
                      × (map columns gs ≡ wanted input ∷ map wanted inputs))
                    same ((owner, owned), rw (asked, count) refl)
            ]

    pub new_graph-Gives :
        (d : Device) (ch : Channel) (fs : List Field) (s t : Db) (c : Channel)
        → Gives (new_graph lib down now d ch fs) s c t
        → (t ≡ record s {
          devices = s.devices ++ device_row now d ∷ [];
          channels = s.channels ++ channel_row down now ch (suc s.last_short_id) ∷ [];
          last_short_id = suc s.last_short_id;
          fields = s.fields ++ map (field_row now) fs;
        })
          × (c ≡ record ch { short_id = suc s.last_short_id })
    new_graph-Gives d ch fs s t c h =
        let (y, e, he, g1) = bind-Gives _ _ s t c h in
        let (created, f, hf, g2) = bind-Gives _ _ e t c g1 in
        let (z, g, hg, g3) = bind-Gives _ _ f t c g2 in
        let (t_is, c_is) = return-Gives c created g t g3 in
        let e_is = insert_device-Gives d s e y he in
        let (f_is, created_is) = insert_channel-Gives ch e f created hf in
        (
          t_is
              ∙ insert_fields-Gives fs f g z hg
              ∙ ap (λ (q : Db). record q { fields = q.fields ++ map (field_row now) fs }) f_is
              ∙ ap
                  (λ (q : Db). record q {
                    channels = q.channels ++ channel_row down now ch (suc q.last_short_id) ∷ [];
                    last_short_id = suc q.last_short_id;
                    fields = q.fields ++ map (field_row now) fs;
                  })
                  e_is,
          sym c_is
              ∙ created_is
              ∙ ap (λ (q : Db). record ch { short_id = suc q.last_short_id }) e_is,
        )

    pub linked_graph-Gives :
        (d : Device) (ch : Channel) (fs : List Field) (s t : Db) (x : Unit)
        → Gives (linked_graph lib down now d ch fs) s x t
        → t ≡ record s {
          devices = s.devices ++ device_row now d ∷ [];
          channels = map (link_channel_row now ch) s.channels;
          fields = s.fields ++ map (field_row now) fs;
        }
    linked_graph-Gives d ch fs s t x h =
        let (y, e, he, g1) = bind-Gives _ _ s t x h in
        let (z, f, hf, g2) = bind-Gives _ _ e t x g1 in
        let e_is = insert_device-Gives d s e y he in
        let f_is = link_channel-Gives ch e f z hf in
        insert_fields-Gives fs f t x g2
        ∙ ap (λ (q : Db). record q { fields = q.fields ++ map (field_row now) fs }) f_is
        ∙ ap
            (λ (q : Db). record q {
              channels = map (link_channel_row now ch) q.channels;
              fields = q.fields ++ map (field_row now) fs;
            })
            e_is
