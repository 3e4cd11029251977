-- ===== src/Registry/WellFormed/Calls.antt =====
-- The calls of the database and of the cache leave well-formed tables well formed.
use green_lab.Prelude.{
  suc, ◌≡◌, refl, ◌∙◌, subst, String, Bool, true, ◌&&◌, ◌||◌, Bool-cases, Option-cases, inl, inr,
  none, List, [], ◌∷◌, ◌++◌, map, All, All-append, str_eq, arith,
}
use green_lab.Prelude.Actions.{done, failed, find_row}
use green_lab.Prelude.Actions.Keeps.{Ensures, Keeps, Keeps-all}
use green_lab.Prelude.Tables.{
  absent, distinct, distinct-append, find_row-absent, distinct-map, All-map, All-find_row,
}
use green_lab.Ingestion.Domain.{Time}
use green_lab.Registry.Integers.{ℤ, same}
use green_lab.Registry.Device.{Device, Answer}
use green_lab.Registry.Channel.{Channel, Field, is_visibility}
use green_lab.Registry.Tables.{
  Db, DbCall, channel_create, field_create, tx_begin, tx_commit, cache_set, Step, is_present,
  known_device, update_device_row, delete_device_row, delete_channel_of, update_channel_row,
  link_channel_row, delete_channel_row, update_field_row, insert_device, get_device_where,
  update_device_rows, delete_device_rows, channel_row, insert_channel, get_channel_row,
  update_channel_rows, link_channel, delete_channel_rows,
}
use green_lab.Registry.Cache.{
  known_channel, insert_field, get_field_row, update_field_rows, without_field, delete_field_rows,
  set_cached_device, get_device_by_api_key, delete_cached_device, incr_device_version,
  set_retention, run_in_tx, committed,
}
use green_lab.Registry.WellFormed.{
  Known, GoodDevice, GoodChannel, GoodField, WellFormed, Known-append, Known-map, ChannelsOk-weaken,
  FieldsOk-append, FieldsOk-map, distinct-update, taken,
}

module _ (down : DbCall → Bool) (now : Time) where
  wf_insert_device :
      (d : Device) (s : Db)
      → GoodDevice d
      → WellFormed s
      → WellFormed (insert_device down now d s).0
  unfolding insert_device
  wf_insert_device d s good wf =
      let (devices, channels, fields) = wf in
      let (ids_ok, keys_ok, all_ok) = devices in
      let p = λ (row : Device). str_eq row.api_key d.api_key || str_eq row.id d.id in
      let row = record d { created_at = now; updated_at = now; deleted_at = none } in
      let id = λ (r : Device). r.id in
      let key = λ (r : Device). r.api_key in
      let ids = find_row-absent id p d.id s.devices (λ r h. ground arith) in
      let keys = find_row-absent key p d.api_key s.devices (λ r h. ground arith) in
      let all = All-append GoodDevice s.devices (row ∷ []) all_ok (good, tt) in
      let linked =
        ChannelsOk-weaken s.devices (s.devices ++ row ∷ []) s.channels
          (Known-append s.devices (row ∷ [])) channels in
      ground (arith, ids, keys, distinct-append id s.devices row, distinct-append key s.devices row)

  GoodDevice-get :
      (p : Device → Bool) (s : Db)
      → WellFormed s
      → (d : Device) → (get_device_where down now p s).1 ≡ done d
      → GoodDevice d
  unfolding get_device_where
  GoodDevice-get p s ((ids, keys, all), channels, fields) d h =
      elim (Option-cases (find_row p s.devices)) [
        | inl (row, found) ↦
            let same_row : row ≡ d = ground arith in
            subst GoodDevice same_row (All-find_row GoodDevice p s.devices row all found)
        | inr missing ↦ absurd (ground arith)
      ]

  -- A change of devices that leaves their IDs.
  wf_map_devices :
      (f : Device → Device) (s : Db)
      → ((d : Device) → (f d).id ≡ d.id)
      → ((d : Device) → GoodDevice d → GoodDevice (f d))
      → distinct (λ (d : Device). d.api_key) (map f s.devices) ≡ true
      → WellFormed s
      → WellFormed (record s { devices = map f s.devices })
  wf_map_devices f s same_id good keys ((ids, old, all), channels, fields) = (
    (
      distinct-map (λ (d : Device). d.id) f s.devices same_id ∙ ids,
      keys,
      All-map GoodDevice f s.devices good all,
    ),
    ChannelsOk-weaken s.devices (map f s.devices) s.channels
        (λ id. Known-map f s.devices id same_id) channels,
    fields,
  )

  -- A change of channels that leaves their IDs.
  wf_map_channels :
      (f : Channel → Channel) (s : Db)
      → ((c : Channel) → (f c).id ≡ c.id)
      → ((c : Channel)
          → GoodChannel c × Known s.devices c.device_id
          → GoodChannel (f c) × Known s.devices (f c).device_id)
      → WellFormed s
      → WellFormed (record s { channels = map f s.channels })
  wf_map_channels f s same_id good (devices, (ids, all), fields) = (
    devices,
    (
      distinct-map (λ (c : Channel). c.id) f s.channels same_id ∙ ids,
      All-map (λ (c : Channel). GoodChannel c × Known s.devices c.device_id) f s.channels good all,
    ),
    FieldsOk-map f s.channels s.fields same_id fields,
  )

  GoodDevice-update_device_row :
      (d row : Device) → GoodDevice d → GoodDevice row → GoodDevice (update_device_row now d row)
  GoodDevice-update_device_row d row good old = elim (Bool-cases (str_eq row.id d.id)) [
    | inl hit ↦ rw hit good
    | inr miss ↦ rw miss old
  ]

  wf_update_device_rows :
      (d : Device) (s : Db)
      → GoodDevice d
      → WellFormed s
      → WellFormed (update_device_rows down now d s).0
  unfolding update_device_rows
  wf_update_device_rows d s good wf = elim (Option-cases (find_row (taken d) s.devices)) [
    | inl (row, found) ↦ ground arith
    | inr free ↦
        let keys = distinct-update now d s.devices wf.0.0 wf.0.1 free in
        let mapped =
          wf_map_devices (update_device_row now d) s (λ row. ground arith)
            (λ row. GoodDevice-update_device_row d row good) keys wf in
        ground arith
  ]

  deleted_device :
      (id : String) (row : Device)
      → ((delete_device_row now id row).id ≡ row.id)
        × ((delete_device_row now id row).api_key ≡ row.api_key)
        × ((delete_device_row now id row).status ≡ row.status)
  unfolding delete_device_row
  deleted_device id row = (ground arith, ground arith, ground arith)

  deleted_channel :
      (id : String) (row : Channel)
      → ((delete_channel_of now id row).id ≡ row.id)
        × ((delete_channel_of now id row).visibility ≡ row.visibility)
        × ((delete_channel_of now id row).device_id ≡ row.device_id)
  unfolding delete_channel_of
  deleted_channel id row = (ground arith, ground arith, ground arith)

  wf_delete_device_rows :
      (id : String) (s : Db) → WellFormed s → WellFormed (delete_device_rows down now id s).0
  unfolding delete_device_rows
  wf_delete_device_rows id s wf =
      let f = delete_device_row now id in
      let g = delete_channel_of now id in
      let keys =
        distinct-map (λ (d : Device). d.api_key) f s.devices (λ d. (deleted_device id d).1)
        ∙ wf.0.1 in
      let devices =
        wf_map_devices f s (λ d. (deleted_device id d).0)
          (λ d good. rw ((deleted_device id d).2) good) keys wf in
      let both =
        wf_map_channels g (record s { devices = map f s.devices }) (λ c. (deleted_channel id c).0)
          (λ c good. rw ((deleted_channel id c).1, (deleted_channel id c).2) good) devices in
      ground arith

  removed_channel :
      (id : String) (row : Channel)
      → ((delete_channel_row now id row).id ≡ row.id)
        × ((delete_channel_row now id row).visibility ≡ row.visibility)
        × ((delete_channel_row now id row).device_id ≡ row.device_id)
  unfolding delete_channel_row
  removed_channel id row = (ground arith, ground arith, ground arith)

  wf_delete_channel_rows :
      (id : String) (s : Db) → WellFormed s → WellFormed (delete_channel_rows down now id s).0
  unfolding delete_channel_rows
  wf_delete_channel_rows id s wf =
      let removed =
        wf_map_channels (delete_channel_row now id) s (λ c. (removed_channel id c).0)
          (λ c good. rw ((removed_channel id c).1, (removed_channel id c).2) good) wf in
      ground arith

  wf_update_channel_rows :
      (ch : Channel) (s : Db)
      → GoodChannel ch
      → WellFormed s
      → WellFormed (update_channel_rows down now ch s).0
  unfolding update_channel_rows
  wf_update_channel_rows ch s good wf =
      let updated =
        wf_map_channels (update_channel_row now ch) s (λ c. ground arith)
          (λ c old. elim (Bool-cases (str_eq c.id ch.id)) [
            | inl hit ↦ rw hit (good, old.1)
            | inr miss ↦ rw miss old
          ])
          wf in
      ground arith

  wf_link_channel :
      (ch : Channel) (s : Db) → WellFormed s → WellFormed (link_channel down now ch s).0
  unfolding link_channel
  wf_link_channel ch s wf = elim (Bool-cases (known_device ch.device_id s.devices)) [
    | inl known ↦
        let linked =
          wf_map_channels (link_channel_row now ch) s (λ c. ground arith)
            (λ c old. elim (Bool-cases (str_eq c.id ch.id)) [
              | inl hit ↦ rw hit (old.0, known)
              | inr miss ↦ rw miss old
            ])
            wf in
        ground arith
    | inr unknown ↦ ground arith
  ]

  channel_added :
      (ch : Channel) (s : Db)
      → GoodChannel ch
      → find_row (λ (row : Channel). str_eq row.id ch.id) s.channels ≡ none
      → Known s.devices ch.device_id
      → WellFormed s
      → WellFormed (record s {
        channels = s.channels ++ channel_row down now ch (suc s.last_short_id) ∷ [];
        last_short_id = suc s.last_short_id;
      })
  channel_added ch s good free known (devices, (unique, all), fields) =
      let row = channel_row down now ch (suc s.last_short_id) in
      let id = λ (c : Channel). c.id in
      let ids = find_row-absent id (λ c. str_eq c.id ch.id) ch.id s.channels (λ c h. h) free in
      (
        devices,
        (
          distinct-append id s.channels row unique ids,
          All-append (λ (c : Channel). GoodChannel c × Known s.devices c.device_id) s.channels
              (row ∷ []) all ((good, known), tt),
        ),
        FieldsOk-append s.channels (row ∷ []) s.fields fields,
      )

  wf_insert_channel :
      (ch : Channel) (s : Db)
      → GoodChannel ch
      → WellFormed s
      → WellFormed (insert_channel down now ch s).0
  unfolding insert_channel
  wf_insert_channel ch s good wf = elim (Bool-cases (down channel_create)) [
    | inl d ↦ rw d wf
    | inr d ↦ elim (Option-cases (find_row (λ (row : Channel). str_eq row.id ch.id) s.channels)) [
      | inl (row, found) ↦ rw (d, found) wf
      | inr free ↦ elim (Bool-cases (known_device ch.device_id s.devices)) [
        | inr unknown ↦ rw (d, free, unknown) wf
        | inl known ↦ rw (d, free, known) (channel_added ch s good free known wf)
      ]
    ]
  ]

  GoodChannel-get :
      (id : String) (s : Db)
      → WellFormed s
      → (ch : Channel) → (get_channel_row down now id s).1 ≡ done ch
      → GoodChannel ch
  unfolding get_channel_row
  GoodChannel-get id s (devices, (unique, all), fields) ch h =
      let p = λ (row : Channel). str_eq row.id id && is_present row.deleted_at in
      elim (Option-cases (find_row p s.channels)) [
        | inl (row, found) ↦
            let same_row : row.visibility ≡ ch.visibility = ground arith in
            let good =
              All-find_row (λ (c : Channel). GoodChannel c × Known s.devices c.device_id) p
                s.channels row all found in
            subst (λ v. is_visibility v ≡ true) same_row good.0
        | inr missing ↦ absurd (ground arith)
      ]

  -- What is known of a field besides its own columns.
  abbrev Owned : List Channel → Field → Type 0
  Owned cs f = GoodField f × (known_channel f.channel_id cs ≡ true)

  field_added :
      (f : Field) (s : Db)
      → GoodField f
      → find_row
          (λ (row : Field).
            str_eq row.id f.id
            || (str_eq row.channel_id f.channel_id && same row.position f.position))
          s.fields
        ≡ none
      → known_channel f.channel_id s.channels ≡ true
      → WellFormed s
      → WellFormed
          (record s { fields = s.fields ++ record f { created_at = now; updated_at = now } ∷ [] })
  field_added f s good free known (devices, channels, (unique, all)) =
      let row = record f { created_at = now; updated_at = now } in
      let id = λ (g : Field). g.id in
      let ids = find_row-absent id _ f.id s.fields (λ g h. ground arith) free in
      (
        devices,
        channels,
        (
          distinct-append id s.fields row unique ids,
          All-append (Owned s.channels) s.fields (row ∷ []) all ((good, known), tt),
        ),
      )

  wf_insert_field :
      (f : Field) (s : Db) → GoodField f → WellFormed s → WellFormed (insert_field down now f s).0
  unfolding insert_field
  wf_insert_field f s good wf = elim (Bool-cases (down (field_create f.id))) [
    | inl d ↦ rw d wf
    | inr d ↦
        elim (Option-cases (
          find_row
            (λ (row : Field).
              str_eq row.id f.id
              || (str_eq row.channel_id f.channel_id && same row.position f.position))
            s.fields)) [
              | inl (row, found) ↦ rw (d, found) wf
              | inr free ↦ elim (Bool-cases (known_channel f.channel_id s.channels)) [
                | inr unknown ↦ rw (d, free, unknown) wf
                | inl known ↦ rw (d, free, known) (field_added f s good free known wf)
              ]
            ]
  ]

  wf_update_field_rows :
      (f : Field) (s : Db) → WellFormed s → WellFormed (update_field_rows down now f s).0
  unfolding update_field_rows
  wf_update_field_rows f s (devices, channels, (unique, all)) =
      let g = update_field_row now f in
      let ids = distinct-map (λ (r : Field). r.id) g s.fields (λ r. ground arith) ∙ unique in
      let owned =
        All-map (Owned s.channels) g s.fields
          (λ r old. elim (Bool-cases (str_eq r.id f.id)) [
            | inl hit ↦ rw hit old
            | inr miss ↦ rw miss old
          ])
          all in
      let updated : WellFormed (record s { fields = map g s.fields }) =
        (devices, channels, (ids, owned)) in
      ground arith

  absent-without_field :
      (id k : String) (rows : List Field)
      → absent (λ (r : Field). r.id) k rows ≡ true
      → absent (λ (r : Field). r.id) k (without_field down now id rows) ≡ true
  unfolding without_field
  absent-without_field id k [] h = refl
  absent-without_field id k (row ∷ rows) h = ground (arith, absent-without_field id k rows)

  distinct-without_field :
      (id : String) (rows : List Field)
      → distinct (λ (r : Field). r.id) rows ≡ true
      → distinct (λ (r : Field). r.id) (without_field down now id rows) ≡ true
  unfolding without_field
  distinct-without_field id [] h = refl
  distinct-without_field id (row ∷ rows) h =
      ground (arith, absent-without_field id row.id rows, distinct-without_field id rows)

  All-without_field :
      (P : Field → Type 0) (id : String) (rows : List Field)
      → All P rows
      → All P (without_field down now id rows)
  unfolding without_field
  All-without_field P id [] h = tt
  All-without_field P id (row ∷ rows) h = elim (Bool-cases (str_eq row.id id)) [
    | inl hit ↦ rw hit (All-without_field P id rows h.1)
    | inr miss ↦ rw miss (h.0, All-without_field P id rows h.1)
  ]

  wf_delete_field_rows :
      (id : String) (s : Db) → WellFormed s → WellFormed (delete_field_rows down now id s).0
  unfolding delete_field_rows
  wf_delete_field_rows id s (devices, channels, (unique, all)) =
      let ids = distinct-without_field id s.fields unique in
      let owned = All-without_field (Owned s.channels) id s.fields all in
      let deleted : WellFormed (record s { fields = without_field down now id s.fields }) =
        (devices, channels, (ids, owned)) in
      ground arith

  wf_set_cached_device :
      (d : Device) (s : Db) → WellFormed s → WellFormed (set_cached_device down now d s).0
  unfolding set_cached_device
  wf_set_cached_device d s wf = elim (Bool-cases (down cache_set)) [
    | inl d' ↦ rw d' wf
    | inr d' ↦ rw d' wf
  ]

  committed-WellFormed :
      {A : Type 0} (s : Db) (out : Db × Answer A)
      → WellFormed s
      → WellFormed out.0
      → WellFormed (committed down now s out).0
  unfolding committed
  committed-WellFormed s (t, failed e) wf after = wf
  committed-WellFormed s (t, done a) wf after = elim (Bool-cases (down tx_commit)) [
    | inl d ↦ rw d wf
    | inr d ↦ rw d after
  ]

  -- A transaction that is rolled back restores well-formed tables.
  pub Keeps-run_in_tx :
      {A : Type 0} {m : Step A} → Keeps WellFormed m → Keeps WellFormed (run_in_tx down now m)
  unfolding run_in_tx
  Keeps-run_in_tx {m = m} hm = Keeps-all WellFormed (λ s wf. elim (Bool-cases (down tx_begin)) [
    | inl d ↦ rw d wf
    | inr d ↦ rw d (committed-WellFormed s (m s) wf (hm.keeps s wf))
  ])

  pub Keeps-insert_device :
      (d : Device) → GoodDevice d → Keeps WellFormed (insert_device down now d)
  Keeps-insert_device d good = Keeps-all WellFormed (λ s. wf_insert_device d s good)

  pub Ensures-get_device_where :
      (p : Device → Bool) → Ensures WellFormed GoodDevice (get_device_where down now p)
  unfolding get_device_where
  Ensures-get_device_where p = record { keeps = λ s wf. ground arith; ensures = GoodDevice-get p }

  pub Keeps-update_device_rows :
      (d : Device) → GoodDevice d → Keeps WellFormed (update_device_rows down now d)
  Keeps-update_device_rows d good = Keeps-all WellFormed (λ s. wf_update_device_rows d s good)

  pub Keeps-delete_device_rows : (id : String) → Keeps WellFormed (delete_device_rows down now id)
  Keeps-delete_device_rows id = Keeps-all WellFormed (wf_delete_device_rows id)

  pub Keeps-insert_channel :
      (ch : Channel) → GoodChannel ch → Keeps WellFormed (insert_channel down now ch)
  Keeps-insert_channel ch good = Keeps-all WellFormed (λ s. wf_insert_channel ch s good)

  pub Ensures-get_channel_row :
      (id : String) → Ensures WellFormed GoodChannel (get_channel_row down now id)
  unfolding get_channel_row
  Ensures-get_channel_row id = record { keeps = λ s wf. ground arith; ensures = GoodChannel-get id }

  pub Keeps-update_channel_rows :
      (ch : Channel) → GoodChannel ch → Keeps WellFormed (update_channel_rows down now ch)
  Keeps-update_channel_rows ch good = Keeps-all WellFormed (λ s. wf_update_channel_rows ch s good)

  pub Keeps-link_channel : (ch : Channel) → Keeps WellFormed (link_channel down now ch)
  Keeps-link_channel ch = Keeps-all WellFormed (wf_link_channel ch)

  pub Keeps-delete_channel_rows : (id : String) → Keeps WellFormed (delete_channel_rows down now id)
  Keeps-delete_channel_rows id = Keeps-all WellFormed (wf_delete_channel_rows id)

  pub Keeps-insert_field : (f : Field) → GoodField f → Keeps WellFormed (insert_field down now f)
  Keeps-insert_field f good = Keeps-all WellFormed (λ s. wf_insert_field f s good)

  pub Keeps-get_field_row : (id : String) → Keeps WellFormed (get_field_row down now id)
  unfolding get_field_row
  Keeps-get_field_row id = Keeps-all WellFormed (λ s wf. ground arith)

  pub Keeps-update_field_rows : (f : Field) → Keeps WellFormed (update_field_rows down now f)
  Keeps-update_field_rows f = Keeps-all WellFormed (wf_update_field_rows f)

  pub Keeps-delete_field_rows : (id : String) → Keeps WellFormed (delete_field_rows down now id)
  Keeps-delete_field_rows id = Keeps-all WellFormed (wf_delete_field_rows id)

  pub Keeps-set_cached_device : (d : Device) → Keeps WellFormed (set_cached_device down now d)
  Keeps-set_cached_device d = Keeps-all WellFormed (wf_set_cached_device d)

  pub Keeps-get_device_by_api_key :
      (key : String) → Keeps WellFormed (get_device_by_api_key down now key)
  unfolding get_device_by_api_key
  Keeps-get_device_by_api_key key = Keeps-all WellFormed (λ s wf. ground arith)

  pub Keeps-delete_cached_device :
      (id key : String) → Keeps WellFormed (delete_cached_device down now id key)
  unfolding delete_cached_device
  Keeps-delete_cached_device id key = Keeps-all WellFormed (λ s wf. ground arith)

  pub Keeps-incr_device_version : (id : String) → Keeps WellFormed (incr_device_version down now id)
  unfolding incr_device_version
  Keeps-incr_device_version id = Keeps-all WellFormed (λ s wf. ground arith)

  pub Keeps-set_retention :
      (id : String) (days : ℤ) → Keeps WellFormed (set_retention down now id days)
  unfolding set_retention
  Keeps-set_retention id days = Keeps-all WellFormed (λ s wf. ground arith)
