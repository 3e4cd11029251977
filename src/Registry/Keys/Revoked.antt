-- ===== src/Registry/Keys/Revoked.antt =====
-- The API key of a device that is deleted, and of one that is blocked.
use green_lab.Prelude.{
  ℕ, get_elem?, ◌≡◌, ◌<◌, ◌+◌, refl, sym, ◌∙◌, ap, subst, String, Bool, true, false, Bool-cases,
  inl, inr, none, some, List, [], ◌∷◌, map, lt→ltb, str_eq, eq_iff, arith,
}
use green_lab.Prelude.Maps.{lookup, erase, lookup-erase, lookup-insert_self}
use text.Mathlib.TextPositions.{eq_refl}
use green_lab.Prelude.Tables.{distinct, absent, find_row-get_elem?}
use green_lab.Prelude.Actions.{done, failed, ◌>>=◌, find_row}
use green_lab.Prelude.Actions.Gives.{Gives, bind-Gives, from-Gives, ignore-Gives, return-Gives}
use green_lab.Ingestion.Domain.{Time}
use green_lab.Registry.Device.{
  RegistryError, device_not_found, cache_miss, storage_error, uuid_error, Answer, Device,
  RegistryLib, soft_delete,
}
use green_lab.Registry.Tables.{
  Db, DbCall, key_query, device_get, cache_set, cache_get, cache_delete, is_present,
  is_present-none, get_device_where, delete_device_row, delete_channel_of, delete_device_rows,
}
use green_lab.Registry.Cache.{
  cached, device_cache_ttl, set_cached_device, get_device_by_api_key, delete_cached_device,
  incr_device_version,
}
use green_lab.Registry.Devices.{
  device_with_id, device_with_key, delete_device, validate_device_key, or_look_up, look_up_key,
  update_device, UpdateDeviceInput,
}
use green_lab.Registry.Keys.{select, query_key, as_uuid, validate_api_key}

-- No row answers to the key.
abbrev pub Keyless : String → List Device → Type 0
Keyless key rows = select (device_with_key key) rows ≡ []

-- A row whose key differs from all those of a list is not in the list.
absent-find_row :
    (p : Device → Bool) (k : String) (rows : List Device) (d : Device)
    → absent (λ (r : Device). r.api_key) k rows ≡ true
    → find_row p rows ≡ some d
    → str_eq d.api_key k ≡ false
unfolding find_row
absent-find_row p k [] d n found = absurd (cc)
absent-find_row p k (row ∷ rows) d n found = elim (Bool-cases (p row)) [
  | inl hit ↦ let same : row ≡ d = ground arith in ground arith
  | inr miss ↦ absent-find_row p k rows d (ground arith) (rw miss at found)
]

absent-Keyless :
    (now : Time) (id key : String) (rows : List Device)
    → absent (λ (r : Device). r.api_key) key rows ≡ true
    → Keyless key (map (delete_device_row now id) rows)
unfolding delete_device_row
absent-Keyless now id key [] n = refl
absent-Keyless now id key (row ∷ rows) n =
    let rest = absent-Keyless now id key rows (ground arith) in
    let other : str_eq row.api_key key ≡ false = ground arith in ground arith

-- Once its row is deleted, no row has a device's key.
deleted-Keyless :
    (now : Time) (id : String) (rows : List Device) (d : Device)
    → distinct (λ (r : Device). r.api_key) rows ≡ true
    → find_row (device_with_id id) rows ≡ some d
    → Keyless d.api_key (map (delete_device_row now id) rows)
unfolding find_row delete_device_row is_present
deleted-Keyless now id [] d n found = absurd (cc)
deleted-Keyless now id (row ∷ rows) d n found = elim (Bool-cases (device_with_id id row)) [
  | inl hit ↦
      let same : row ≡ d = ground arith in
      let rest = absent-Keyless now id row.api_key rows (ground arith) in
      let here : Keyless row.api_key (map (delete_device_row now id) (row ∷ rows)) = ground arith in
      subst (λ (q : Device). Keyless q.api_key (map (delete_device_row now id) (row ∷ rows))) same
        here
  | inr miss ↦
      let later : find_row (device_with_id id) rows ≡ some d = rw miss at found in
      let rest = deleted-Keyless now id rows d (ground arith) later in
      let other = absent-find_row (device_with_id id) row.api_key rows d (ground arith) later in
      ground (arith, eq_iff row.api_key d.api_key, eq_iff d.api_key row.api_key)
]

device_with_id_lem :
    (id : String) (d : Device) → device_with_id id d ≡ true → (d.id ≡ id) × (d.deleted_at ≡ none)
unfolding is_present
device_with_id_lem id d h =
    let same : str_eq d.id id ≡ true = ground arith in
    ((eq_iff d.id id).0 same, is_present-none d.deleted_at (ground arith))

find_row-select :
    {A : Type 0} (p : A → Bool) (rows : List A) → select p rows ≡ [] → find_row p rows ≡ none
unfolding find_row
find_row-select p [] h = refl
find_row-select p (a ∷ rows) h = elim (Bool-cases (p a)) [
  | inl hit ↦ absurd (let found : a ∷ select p rows ≡ [] = rw hit at h in cc)
  | inr miss ↦ rw miss (find_row-select p rows (rw miss at h))
]

module _ (lib : RegistryLib) (down : DbCall → Bool) (now : Time) where
  get_device_where-none :
      (p : Device → Bool) (s : Db)
      → find_row p s.devices ≡ none
      → (e : RegistryError) × (get_device_where down now p s ≡ (s, failed e))
  unfolding get_device_where
  get_device_where-none p s missing = elim (Bool-cases (down device_get)) [
    | inl d ↦ (storage_error, rw d)
    | inr d ↦ (device_not_found, rw (d, missing))
  ]

  get_device_by_api_key-none :
      (key : String) (s : Db)
      → lookup key s.by_api_key ≡ none
      → (e : RegistryError) × (get_device_by_api_key down now key s ≡ (s, failed e))
  unfolding get_device_by_api_key
  get_device_by_api_key-none key s missing = elim (Bool-cases (down cache_get)) [
    | inl d ↦ (storage_error, rw d)
    | inr d ↦ (cache_miss, rw (d, missing))
  ]

  -- A key that neither the tables nor the cache know is refused.
  validate_device_key_refused :
      (key : String) (s : Db)
      → Keyless key s.devices
      → lookup key s.by_api_key ≡ none
      → (e : RegistryError) × ((validate_device_key lib down now key s).1 ≡ failed e)
  unfolding validate_device_key or_look_up look_up_key ◌>>=◌ is_present
  validate_device_key_refused key s keyless missing =
      let (x, miss) = get_device_by_api_key-none key s missing in
      let (e, refused) =
        get_device_where-none (device_with_key key) s (find_row-select _ s.devices keyless) in
      (e, rw (miss, refused))

  query_key_refused :
      (key : String) (s : Db) (id : Answer String)
      → Keyless key s.devices
      → (e : RegistryError) × (query_key lib down key s id ≡ failed e)
  query_key_refused key s (failed e) keyless = (e, refl)
  query_key_refused key s (done id) keyless = (device_not_found, rw keyless)

  validate_api_key_refused :
      (key channel_id : String) (s : Db)
      → Keyless key s.devices
      → (e : RegistryError) × ((validate_api_key lib down key channel_id s).1 ≡ failed e)
  unfolding validate_api_key
  validate_api_key_refused key channel_id s keyless = elim (Bool-cases (down key_query)) [
    | inl d ↦ (storage_error, rw d)
    | inr d ↦
        let (e, refused) = query_key_refused key s (as_uuid lib down channel_id) keyless in
        (e, rw d refused)
  ]

module _ (lib : RegistryLib) (down : DbCall → Bool) (now : Time) where
  get_device_where-Gives :
      (p : Device → Bool) (s t : Db) (d : Device)
      → Gives (get_device_where down now p) s d t
      → (find_row p s.devices ≡ some d) × (t ≡ s)
  unfolding get_device_where
  get_device_where-Gives p s t d h = (ground arith, ground arith)

  delete_device_rows-Gives :
      (id : String) (s t : Db) (x : Unit)
      → Gives (delete_device_rows down now id) s x t
      → t ≡ record s {
        devices = map (delete_device_row now id) s.devices;
        channels = map (delete_channel_of now id) s.channels;
      }
  unfolding delete_device_rows
  delete_device_rows-Gives id s t x h = ground arith

  delete_cached_device_up :
      (id key : String) (s : Db)
      → down cache_delete ≡ false
      → (delete_cached_device down now id key s).0
        ≡ record s { by_id = erase id s.by_id; by_api_key = erase key s.by_api_key }
  unfolding delete_cached_device
  delete_cached_device_up id key s up = rw up

  incr_device_version-Gives :
      (id : String) (s : Db)
      → let t = (incr_device_version down now id s).0 in
        (t.devices ≡ s.devices) × (t.by_api_key ≡ s.by_api_key)
  unfolding incr_device_version
  incr_device_version-Gives id s = (ground arith, ground arith)

  soft_delete-api_key :
      (d deleted : Device) → soft_delete now d ≡ done deleted → deleted.api_key ≡ d.api_key
  unfolding soft_delete
  soft_delete-api_key d deleted h = ground arith

  parsed_id :
      (text id : String)
      → (elim (lib.parse_uuid text) as (λ _. Answer String) [
        | none ↦ failed uuid_error
        | some i ↦ done i
      ])
        ≡ done id
      → lib.parse_uuid text ≡ some id
  parsed_id text id h = ground arith

  -- What is left of a deleted device's key.
  delete_device-Gives :
      (text : String) (s t : Db)
      → down cache_delete ≡ false
      → delete_device lib down now text s ≡ (t, done tt)
      → (id : String) × (d : Device) × (lib.parse_uuid text ≡ some id)
        × (find_row (device_with_id id) s.devices ≡ some d)
        × (t.devices ≡ map (delete_device_row now id) s.devices)
        × (t.by_api_key ≡ erase d.api_key s.by_api_key)
  unfolding delete_device is_present
  delete_device-Gives text s t up h =
      let (id, a, ha, h1) = bind-Gives _ _ s t tt h in
      let (parsed, a_is) = from-Gives _ s a id ha in
      let (d, b, hb, h2) = bind-Gives _ _ a t tt h1 in
      let (found, b_is) = get_device_where-Gives (device_with_id id) a b d hb in
      let (deleted, c, hc, h3) = bind-Gives _ _ b t tt h2 in
      let (is_deleted, c_is) = from-Gives _ b c deleted hc in
      let (x, e, he, h4) = bind-Gives _ _ c t tt h3 in
      let e_is = delete_device_rows-Gives id c e x he in
      let (y, f, hf, h5) = bind-Gives _ _ e t tt h4 in
      let f_is =
        ignore-Gives _ e f y hf ∙ delete_cached_device_up deleted.id deleted.api_key e up in
      let t_is = ignore-Gives _ f t tt h5 in
      let (devices, by_api_key) = incr_device_version-Gives deleted.id f in
      let before = c_is ∙ b_is ∙ a_is in
      let key = soft_delete-api_key d deleted is_deleted in
      (
        id,
        d,
        parsed_id text id parsed,
        ap (λ (q : Db). find_row (device_with_id id) q.devices) (sym a_is) ∙ found,
        ap (λ (q : Db). q.devices) t_is
            ∙ devices
            ∙ ap (λ (q : Db). q.devices) f_is
            ∙ ap (λ (q : Db). q.devices) e_is
            ∙ ap (λ (q : Db). map (delete_device_row now id) q.devices) before,
        ap (λ (q : Db). q.by_api_key) t_is
            ∙ by_api_key
            ∙ ap (λ (q : Db). q.by_api_key) f_is
            ∙ ap (λ (q : Db). erase deleted.api_key q.by_api_key) (e_is)
            ∙ ap (λ (q : Db). erase deleted.api_key q.by_api_key) before
            ∙ ap (λ k. erase k s.by_api_key) key,
      )

  -- After DeleteDevice has succeeded, if the call that clears the cache did not fail and devices have
  -- different API keys, the key of the device with the given ID, which was there and was not deleted
  -- before, is refused on the tables and the cache that are left, at any time and whatever fails:
  -- ValidateAPIKey of the device service finds it neither in the cache nor in the table, and no
  -- channel may be written with it.
  pub validate_device_key-delete_device :
      (later_down : DbCall → Bool) (later : Time) (text channel_id : String) (s t : Db)
      → down cache_delete ≡ false
      → distinct (λ (d : Device). d.api_key) s.devices ≡ true
      → delete_device lib down now text s ≡ (t, done tt)
      → (d : Device) × (e x : RegistryError) × (lib.parse_uuid text ≡ some d.id)
        × ((i : ℕ) × (get_elem? s.devices i ≡ some d))
        × (d.deleted_at ≡ none)
        × ((validate_device_key lib later_down later d.api_key t).1 ≡ failed e)
        × ((validate_api_key lib later_down d.api_key channel_id t).1 ≡ failed x)
  validate_device_key-delete_device later_down later text channel_id s t up unique h =
      let (id, d, parsed, found, devices, by_api_key) = delete_device-Gives text s t up h in
      let (place, fits) = find_row-get_elem? (device_with_id id) s.devices d found in
      let (same, there) = device_with_id_lem id d fits in
      let keyless =
        subst (Keyless d.api_key) (sym devices) (deleted-Keyless now id s.devices d unique found) in
      let uncached : lookup d.api_key t.by_api_key ≡ none =
        ap (lookup d.api_key) by_api_key
        ∙ lookup-erase d.api_key d.api_key s.by_api_key
        ∙ rw (eq_refl d.api_key) refl in
      let (e, refused) =
        validate_device_key_refused lib later_down later d.api_key t keyless uncached in
      let (x, closed) =
        validate_api_key_refused lib later_down later d.api_key channel_id t keyless in
      (d, e, x, parsed ∙ ap some (sym same), place, there, refused, closed)

module _ (lib : RegistryLib) (down later_down : DbCall → Bool) (now later : Time) where
  set_cached_device_up :
      (d : Device) (s : Db)
      → down cache_set ≡ false
      → lookup d.api_key (set_cached_device down now d s).0.by_api_key
        ≡ some (cached down now d, now + device_cache_ttl down now)
  unfolding set_cached_device
  set_cached_device_up d s up = rw up (lookup-insert_self d.api_key _ s.by_api_key)

  get_device_by_api_key_hit :
      (key : String) (s : Db) (d : Device) (expires : Time)
      → later_down cache_get ≡ false
      → lookup key s.by_api_key ≡ some (d, expires)
      → later < expires
      → get_device_by_api_key later_down later key s ≡ (s, done d)
  unfolding get_device_by_api_key
  get_device_by_api_key_hit key s d expires up hit l = rw (up, hit, lt→ltb later expires l)

  -- A device that UpdateDevice has changed is what ValidateAPIKey answers for its key for the next
  -- five minutes, if the calls of the cache do not fail: a device that was just blocked too.
  pub validate_device_key-update_device :
      (text : String) (input : UpdateDeviceInput) (s t : Db) (d : Device)
      → down cache_set ≡ false
      → later_down cache_get ≡ false
      → later < now + device_cache_ttl down now
      → update_device lib down now text input s ≡ (t, done d)
      → validate_device_key lib later_down later d.api_key t ≡ (t, done (cached down now d))
  unfolding update_device is_present validate_device_key or_look_up
  validate_device_key-update_device text input s t d up later_up l h =
      let (id, a, ha, h1) = bind-Gives _ _ s t d h in
      let (old, b, hb, h2) = bind-Gives _ _ a t d h1 in
      let (changed, c, hc, h3) = bind-Gives _ _ b t d h2 in
      let (x, e, he, h4) = bind-Gives _ _ c t d h3 in
      let (y, f, hf, h5) = bind-Gives _ _ e t d h4 in
      let (t_is, d_is) = return-Gives d changed f t h5 in
      let stored =
        ap (λ (q : Db). lookup changed.api_key q.by_api_key) (t_is ∙ ignore-Gives _ e f y hf)
        ∙ set_cached_device_up changed e up in
      let kept =
        subst
          (λ (q : Device).
            lookup q.api_key t.by_api_key
            ≡ some (cached down now q, now + device_cache_ttl down now))
          d_is stored in
      rw (get_device_by_api_key_hit d.api_key t (cached down now d) _ later_up kept l)
