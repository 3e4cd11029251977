-- ===== src/Ingestion/ApiKeys/Versions.antt =====
-- A key that services/device-registry has rotated, in the cache of services/ingestion.
use green_lab.Prelude.{
  ℕ, suc, ◌+◌, ◌<◌, ◌≡◌, ◌≢◌, true, ltb, refl, sym, ◌∙◌, ap, subst, String, Bool, false, Option,
  none, some, lt→ltb, ◌==◌, if◌then◌else◌, arith,
}
use green_lab.Prelude.Maps.{lookup, lookup-insert_self}
use green_lab.Prelude.Actions.{done}
use green_lab.Prelude.Actions.Gives.{bind-Gives, from-Gives, ignore-Gives, return-Gives}
use green_lab.Ingestion.Domain.{Time, Error, cache_miss, DeviceSchema, ok, err}
use green_lab.Ingestion.Domain
use green_lab.Ingestion.ApiKeys.{
  KeyCache, VersionRead, missing, version, cache_key, check_version, check_entry, validate_cached,
  fall_back, validate_key,
}
use green_lab.Registry.Device.{Device, RegistryLib}
use green_lab.Registry.Tables.{
  Db, DbCall, version_incr, is_present, get_device_where, update_device_rows,
}
use green_lab.Registry.Cache.{
  live, count_of, device_version_ttl, incr_device_version, set_cached_device,
}
use green_lab.Registry.Devices.{rotate_api_key, device_with_id}

-- What ingestion reads at `now` of the counters that the registry keeps.
abbrev pub counter : Option ℕ → VersionRead
counter none = missing
counter (some n) = version n

abbrev pub counters : (DbCall → Bool) → Time → Db → String → VersionRead
counters down now s id = counter (live down now (lookup id s.versions))

-- The count that a rotation at `now` finds.
abbrev pub count_before : Time → Option (ℕ × Time) → ℕ
count_before now none = 0
count_before now (some (n, expires)) = if ltb now expires then n else 0

fall_back_missed :
    (down : DbCall → Bool) (now : Time) (t : Db) (hash : String → String) (write_down : Bool)
    (store : Domain.Result DeviceSchema) (api_key channel_id : String) (cache : KeyCache)
    → (fall_back hash now write_down
        (counters down now t)
        store
        api_key
        channel_id
        cache
        (err cache_miss)).0
      ≡ store
unfolding fall_back
fall_back_missed down now t hash write_down (err e) api_key channel_id cache = refl
fall_back_missed down now t hash write_down (ok schema) api_key channel_id cache = refl

module _ (lib : RegistryLib) (down : DbCall → Bool) (now : Time) where
  incr_device_version_up :
      (id : String) (s : Db)
      → down version_incr ≡ false
      → lookup id (incr_device_version down now id s).0.versions
        ≡ some (
          suc (count_of down now (live down now (lookup id s.versions))),
          now + device_version_ttl down now,
        )
  unfolding incr_device_version
  incr_device_version_up id s up = rw up (lookup-insert_self id _ s.versions)

  versions-set_cached_device :
      (d : Device) (s : Db) → (set_cached_device down now d s).0.versions ≡ s.versions
  unfolding set_cached_device
  versions-set_cached_device d s = ground arith

  versions-get_device_where :
      (p : Device → Bool) (s : Db) → (get_device_where down now p s).0.versions ≡ s.versions
  unfolding get_device_where
  versions-get_device_where p s = ground arith

  versions-update_device_rows :
      (d : Device) (s : Db) → (update_device_rows down now d s).0.versions ≡ s.versions
  unfolding update_device_rows
  versions-update_device_rows d s = ground arith

  -- A rotation counts up the device's version.
  rotate_api_key-versions :
      (random : Option String) (text : String) (s t : Db) (d : Device)
      → down version_incr ≡ false
      → rotate_api_key lib down now random text s ≡ (t, done d)
      → lookup d.id t.versions
        ≡ some (
          suc (count_of down now (live down now (lookup d.id s.versions))),
          now + device_version_ttl down now,
        )
  unfolding rotate_api_key is_present
  rotate_api_key-versions random text s t d up h =
      let (id, a, ha, h1) = bind-Gives _ _ s t d h in
      let (old, b, hb, h2) = bind-Gives _ _ a t d h1 in
      let (rotated, c, hc, h3) = bind-Gives _ _ b t d h2 in
      let (x, e, he, h4) = bind-Gives _ _ c t d h3 in
      let (y, f, hf, h5) = bind-Gives _ _ e t d h4 in
      let (z, g, hg, h6) = bind-Gives _ _ f t d h5 in
      let (t_is, d_is) = return-Gives d rotated g t h6 in
      let versions_of = λ (q : Db). q.versions in
      let before =
        ap versions_of (ignore-Gives _ e f y hf)
        ∙ versions-set_cached_device rotated e
        ∙ sym (ap (λ p. p.0.versions) he)
        ∙ versions-update_device_rows rotated c
        ∙ ap versions_of (from-Gives _ b c rotated hc).1
        ∙ sym (ap (λ p. p.0.versions) hb)
        ∙ versions-get_device_where (device_with_id id) a
        ∙ ap versions_of (from-Gives _ s a id ha).1 in
      let counted =
        ap (λ (q : Db). lookup rotated.id q.versions) (t_is ∙ ignore-Gives _ f g z hg)
        ∙ incr_device_version_up rotated.id f up
        ∙ ap
            (λ vs. some (
              suc (count_of down now (live down now (lookup rotated.id vs))),
              now + device_version_ttl down now,
            ))
            before in
      subst
        (λ (q : Device).
          lookup q.id t.versions
          ≡ some (
            suc (count_of down now (live down now (lookup q.id s.versions))),
            now + device_version_ttl down now,
          ))
        d_is counted

  count_of-live : (o : Option (ℕ × Time)) → count_of down now (live down now o) ≡ count_before now o
  count_of-live none = refl
  count_of-live (some (n, expires)) = ground arith

  -- After RotateAPIKey has succeeded and has counted up the version, a value of ingestion's cache for
  -- the device is served, for as long as the counter lives, if it was stored with the new count;
  -- otherwise the answer is the registry's. The new count is one more than the count before the
  -- rotation, which is 0 if the counter had expired: a value stored with version 1 is served then.
  pub validate_key-rotate_api_key :
      (later_down : DbCall → Bool) (later : Time) (hash : String → String) (random : Option String)
      (text : String) (s t : Db) (d : Device) (write_down : Bool)
      (store : Domain.Result DeviceSchema) (api_key channel_id : String) (cache : KeyCache)
      (schema : DeviceSchema) (stored : ℕ) (expires : Time)
      → down version_incr ≡ false
      → rotate_api_key lib down now random text s ≡ (t, done d)
      → later < now + device_version_ttl down now
      → schema.device_id ≡ d.id
      → lookup (cache_key hash later api_key channel_id) cache
        ≡ some (some (schema, stored), expires)
      → later < expires
      → let count = 1 + count_before now (lookup d.id s.versions) in
        let answer =
          validate_key hash later false write_down
            (counters later_down later t)
            store
            api_key
            channel_id
            cache in
        (stored ≡ count → answer ≡ (ok schema, cache)) × (stored ≢ count → answer.0 ≡ store)
  unfolding validate_key validate_cached check_entry check_version fall_back
  validate_key-rotate_api_key later_down later hash random text s t d write_down store api_key
        channel_id cache schema stored expires up h l same entry fresh =
      let counted = rotate_api_key-versions random text s t d up h in
      let count = count_before now (lookup d.id s.versions) in
      rw
        (
          entry,
          lt→ltb later expires fresh,
          same,
          counted,
          lt→ltb later _ l,
          count_of-live (lookup d.id s.versions),
        )
        (
          (λ e. let hit : (suc count == stored) ≡ true = ground arith in rw hit refl),
          (λ ne.
              let miss : (suc count == stored) ≡ false = ground arith in
              rw miss (
                fall_back_missed later_down later t hash write_down store api_key channel_id
                  cache)),
        )
