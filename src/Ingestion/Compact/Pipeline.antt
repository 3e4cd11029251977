-- ===== src/Ingestion/Compact/Pipeline.antt =====
-- The steps from a decoded batch to the input of the ingest service.
use green_lab.Prelude.{
  ℕ, zero, suc, ◌+◌, ◌≡◌, ◌≢◌, refl, sym, ◌∙◌, String, false, Option, none, some, List, [], ◌∷◌,
  length, length-map, map, get_elem?, All, eq_iff, ==_ne, arith, ◌⊎◌, inl, inr, Option-cases,
}
use green_lab.Prelude.Maps.{lookup, insert, lookup-insert, lookup-insert_self}
use green_lab.Ingestion.Domain.{
  Time, FieldEntry, DeviceSchema, schema_mismatch_error, Result, ok, err, ok_injective,
}
use green_lab.Ingestion.Batch.{CompactBatch}
use green_lab.Ingestion.Compact.{
  IngestInput, field_at, value_at, resolve_one, resolve_fields, fields_of, base_of,
  version_mismatch, assemble,
}
use green_lab.Ingestion.Compact.Offsets.{Distinct, offset_instant, resolve_td_offsets_ok}

module _ {V : Type 0} where
  -- The fields of the batch from index `idx` on, in the order of their indices, under the names that
  -- the schema gives to the indices; `Names` is the predicate, and `n` the indices left.
  pub data Names (entries : List FieldEntry) (values : List (ℕ × V))
      : ℕ → ℕ → List (String × V) → Type 0 where
    done : {idx : ℕ} → Names entries values zero idx []
    absent :
        {n idx : ℕ} {rest : List (String × V)}
        → value_at idx values ≡ none
        → Names entries values n (idx + 1) rest
        → Names entries values (suc n) idx rest
    named :
        {n idx : ℕ} {rest : List (String × V)} (fe : FieldEntry) (v : V)
        → value_at idx values ≡ some v
        → field_at idx entries ≡ some fe
        → Names entries values n (idx + 1) rest
        → Names entries values (suc n) idx ((fe.name, v) ∷ rest)

  pub resolve_fields-Names :
      {entries : List FieldEntry} {values : List (ℕ × V)} {n idx : ℕ} {resolved : List (String × V)}
      → Names entries values n idx resolved
      → resolve_fields entries values n idx ≡ ok resolved
  unfolding resolve_fields
  resolve_fields-Names done = refl
  resolve_fields-Names (absent hv rest) = rw (hv, resolve_fields-Names rest)
  resolve_fields-Names (named fe v hv hf rest) = rw (hv, hf, resolve_fields-Names rest)

  -- One index with a value, by what the schema and the indices after it say.
  named_or_error :
      (entries : List FieldEntry) (values : List (ℕ × V)) (n idx : ℕ) (v : V)
      (fo : Option FieldEntry) (more : Result (List (String × V))) {resolved : List (String × V)}
      → value_at idx values ≡ some v
      → field_at idx entries ≡ fo
      → ((rest : List (String × V)) → more ≡ ok rest → Names entries values n (idx + 1) rest)
      → resolve_one (some v) fo more ≡ ok resolved
      → Names entries values (suc n) idx resolved
  unfolding resolve_one
  named_or_error entries values n idx v none more hv hf ih h = absurd (cc)
  named_or_error entries values n idx v (some fe) (err e) hv hf ih h = absurd (cc)
  named_or_error entries values n idx v (some fe) (ok rest) hv hf ih h =
      rw (sym (ok_injective h)) (named fe v hv hf (ih rest refl))

  pub Names-resolve_fields :
      (entries : List FieldEntry) (values : List (ℕ × V)) (n idx : ℕ) {resolved : List (String × V)}
      → resolve_fields entries values n idx ≡ ok resolved
      → Names entries values n idx resolved
  unfolding resolve_fields
  Names-resolve_fields entries values zero idx h = rw (sym (ok_injective h)) done
  Names-resolve_fields entries values (suc n) idx h = elim (Option-cases (value_at idx values)) [
    | inl (v, hv) ↦
        named_or_error entries values n idx v (field_at idx entries)
          (resolve_fields entries values n (idx + 1)) hv refl
          (λ rest e. Names-resolve_fields entries values n (idx + 1) e) (rw hv at h)
    | inr hv ↦ absent hv (Names-resolve_fields entries values n (idx + 1) (rw hv at h))
  ]

  fields_of_absent :
      (resolved m : List (String × V)) (k : String)
      → All (λ other. k ≢ other) (map (λ r. r.0) resolved)
      → lookup k (fields_of resolved m) ≡ lookup k m
  unfolding fields_of
  fields_of_absent [] m k h = refl
  fields_of_absent ((name, v) ∷ resolved) m k h =
      fields_of_absent resolved (insert name v m) k h.1
      ∙ ground (arith, lookup-insert name k v m, eq_iff name k)

  lookup-fields_of :
      (resolved m : List (String × V)) (i : ℕ) {k : String} {v : V}
      → Distinct (map (λ r. r.0) resolved)
      → get_elem? resolved i ≡ some (k, v)
      → lookup k (fields_of resolved m) ≡ some v
  unfolding fields_of
  lookup-fields_of [] m i d h = cc
  lookup-fields_of ((name, w) ∷ resolved) m zero {k} {v} d h =
      let same : name ≡ k = cc in
      let value : w ≡ v = cc in
      rw (← same, ← value)
        (fields_of_absent resolved (insert name w m) name d.0 ∙ lookup-insert_self name w m)
  lookup-fields_of ((name, w) ∷ resolved) m (suc i) d h =
      lookup-fields_of resolved (insert name w m) i d.1 h

  name_at :
      (resolved : List (String × V)) (i : ℕ) {k : String} {v : V}
      → get_elem? resolved i ≡ some (k, v)
      → get_elem? (map (λ r. r.0) resolved) i ≡ some k
  name_at [] i h = absurd (cc)
  name_at ((name, w) ∷ resolved) zero h = cc
  name_at ((name, w) ∷ resolved) (suc i) h = name_at resolved i h

  -- A batch of a matching version becomes one input: each field of the batch, in the order of the
  -- indices, has its value under the name that the schema gives to its index, and the instant that its
  -- offset gives. `resolved` lists the fields of the indices 1 to 8, their names are distinct, and
  -- there are no offsets or one for each field.
  pub assemble_ok :
      (now : Time) (schema : DeviceSchema) (channel_id : String) (batch : CompactBatch V)
      (resolved : List (String × V))
      → version_mismatch schema.schema_version batch.schema_version ≡ false
      → Names schema.fields batch.field_values 8 1 resolved
      → Distinct (map (λ r. r.0) resolved)
      → (length batch.td_offsets ≡ 0) ⊎ (length batch.td_offsets ≡ length resolved)
      → (input : IngestInput V) × (assemble now schema channel_id batch ≡ ok (input ∷ []))
        × (input.timestamp ≡ batch.timestamp)
        × ((i : ℕ) (k : String) (v : V)
            → get_elem? resolved i ≡ some (k, v)
            → (lookup k input.fields ≡ some v)
              × (lookup k input.field_timestamps
                  ≡ some (offset_instant (base_of now batch.timestamp) batch.td_offsets i)))
  unfolding assemble
  assemble_ok now schema channel_id batch resolved hv hn hd ht =
      let names = map (λ (r : String × V). r.0) resolved in
      let count : (length batch.td_offsets ≡ 0) ⊎ (length batch.td_offsets ≡ length names) =
        rw (length-map (λ (r : String × V). r.0) resolved) ht in
      let (stamps, resolves, instants) =
        resolve_td_offsets_ok (base_of now batch.timestamp) batch.td_offsets names count hd in
      (
        record {
          channel_id = "";
          device_id = "";
          fields = fields_of resolved [];
          field_timestamps = stamps;
          tags = [];
          timestamp = batch.timestamp;
        },
        rw (hv, resolve_fields-Names hn, resolves),
        refl,
        λ i k v e. (lookup-fields_of resolved [] i hd e, instants i k (name_at resolved i e)),
      )

  -- A version that is given on both sides and differs is refused, with the server's version and the
  -- channel, whatever the fields.
  pub assemble_mismatch :
      (now : Time) (schema : DeviceSchema) (channel_id : String) (batch : CompactBatch V)
      → schema.schema_version ≢ 0
      → batch.schema_version ≢ 0
      → batch.schema_version ≢ schema.schema_version
      → assemble now schema channel_id batch
        ≡ err (schema_mismatch_error schema.schema_version channel_id)
  unfolding assemble
  assemble_mismatch now schema channel_id batch hs hb ne =
      rw (==_ne _ _ hs, ==_ne _ _ hb, ==_ne _ _ ne)
