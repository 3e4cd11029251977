-- ===== src/Ingestion/Service/Grouping.antt =====
-- groupByTimestamp files every field under its own instant.
use mathlib.Core.Bool.{false≢true}
use text.Mathlib.TextPositions.{eq_refl}
use green_lab.Prelude.{
  ℕ, ◌≡◌, ◌≢◌, refl, sym, ◌∙◌, ap, String, Bool, true, false, ◌&&◌, Option, none, some, List, [],
  ◌∷◌, map, All, eq_iff, str_eq, ◌==◌, ==_refl, if◌then◌else◌, arith, Bool-cases, inl, inr,
}
use green_lab.Prelude.Maps.{lookup, lookup-insert}
use green_lab.Ingestion.Domain.{Time, ok, ok_injective, >>-eq-ok, >>=-eq-ok, Reading, new_reading}
use green_lab.Ingestion.Compact.{IngestInput}
use green_lab.Ingestion.Compact.Offsets.{Distinct}
use green_lab.Ingestion.Service.{
  effective, own_instant, check_own, put_group, group_fields, group_by_timestamp,
}

-- No instant stands twice.
abbrev pub NotAmong : Time → List Time → Type 0
NotAmong t [] = Unit
NotAmong t (u ∷ us) = (t ≢ u) × NotAmong t us

abbrev pub DistinctTimes : List Time → Type 0
DistinctTimes [] = Unit
DistinctTimes (t ∷ ts) = NotAmong t ts × DistinctTimes ts

module _ {V : Type 0} where
  -- The fields of the group of an instant.
  abbrev group_at : Time → List (Time × List (String × V)) → List (String × V)
  group_at t [] = []
  group_at t ((u, fields) ∷ groups) = if u == t then fields else group_at t groups

  group_at-put_group :
      (t ts : Time) (name k : String) (v : V) (groups : List (Time × List (String × V)))
      → lookup k (group_at t (put_group ts name v groups))
        ≡ (if ts == t && str_eq name k then some v else lookup k (group_at t groups))
  unfolding put_group
  group_at-put_group t ts name k v [] = ground arith
  group_at-put_group t ts name k v ((u, fields) ∷ groups) =
      ground (arith, lookup-insert name k v fields, group_at-put_group t ts name k v groups)

  -- What is filed for a field: its value at its own instant, and what was there before elsewhere.
  abbrev filed : Bool → Option V → Option V → Option V
  filed here none old = old
  filed here (some v) old = if here then some v else old

  lookup_absent :
      (name : String) (fields : List (String × V))
      → All (λ other. name ≢ other) (map (λ f. f.0) fields)
      → lookup name fields ≡ none
  lookup_absent name [] h = refl
  lookup_absent name ((other, v) ∷ fields) h =
      ground (arith, eq_iff other name, h.0, lookup_absent name fields h.1)

  if-and :
      (b : Bool) (v : V) (o : Option V)
      → (if b && true then some v else o) ≡ (if b then some v else o)
  if-and true v o = refl
  if-and false v o = refl

  if-none : (b : Bool) (v : V) (o : Option V) → (if b && false then some v else o) ≡ o
  if-none true v o = refl
  if-none false v o = refl

  group_fields-filed :
      (now : Time) (age : ℕ) (stamps : List (String × Option Time)) (default_ts : Time)
      (fields : List (String × V)) (groups : List (Time × List (String × V)))
      {result : List (Time × List (String × V))} (t : Time) (k : String)
      → Distinct (map (λ f. f.0) fields)
      → group_fields now age stamps default_ts fields groups ≡ ok result
      → lookup k (group_at t result)
        ≡ filed
            (effective default_ts stamps k == t)
            (lookup k fields)
            (lookup k (group_at t groups))
  unfolding group_fields
  group_fields-filed now age stamps default_ts [] groups t k d h =
      ap (λ r. lookup k (group_at t r)) (sym (ok_injective h))
  group_fields-filed now age stamps default_ts ((name, v) ∷ fields) groups {result} t k d h =
      let own = effective default_ts stamps name in
      let rest = group_fields now age stamps default_ts fields (put_group own name v groups) in
      let inverted = >>-eq-ok (check_own now age (own_instant stamps name)) rest h in
      let ih = λ (j : String).
        group_fields-filed now age stamps default_ts fields (put_group own name v groups) t j d.1
          inverted.1 in
      elim (Bool-cases (str_eq name k)) [
        | inl e ↦
            let same : name ≡ k = (eq_iff name k).0 e in
            rw (← same) (
              ih name
              ∙ rw (lookup_absent name fields d.0, eq_refl)
                  (group_at-put_group t own name name v groups
                    ∙ rw eq_refl (if-and (own == t) v _)))
        | inr ne ↦
            ih k
            ∙ rw ne (
                rw (group_at-put_group t own name k v groups, ne)
                  (ap (filed (effective default_ts stamps k == t) (lookup k fields))
                    (if-none (own == t) v _)))
      ]

  put_group_times :
      (u ts : Time) (name : String) (v : V) (groups : List (Time × List (String × V)))
      → u ≢ ts
      → NotAmong u (map (λ g. g.0) groups)
      → NotAmong u (map (λ g. g.0) (put_group ts name v groups))
  unfolding put_group
  put_group_times u ts name v [] ne h = (ne, tt)
  put_group_times u ts name v ((t, fields) ∷ groups) ne h = elim (Bool-cases (t == ts)) [
    | inl e ↦ rw e h
    | inr e ↦ rw e (h.0, put_group_times u ts name v groups ne h.1)
  ]

  put_group_distinct :
      (ts : Time) (name : String) (v : V) (groups : List (Time × List (String × V)))
      → DistinctTimes (map (λ g. g.0) groups)
      → DistinctTimes (map (λ g. g.0) (put_group ts name v groups))
  unfolding put_group
  put_group_distinct ts name v [] h = (tt, tt)
  put_group_distinct ts name v ((t, fields) ∷ groups) h = elim (Bool-cases (t == ts)) [
    | inl e ↦ rw e h
    | inr e ↦ rw e (
      put_group_times t ts name v groups (λ same. false≢true (sym e ∙ rw same (==_refl ts))) h.0,
      put_group_distinct ts name v groups h.1,
    )
  ]

  group_fields_distinct :
      (now : Time) (age : ℕ) (stamps : List (String × Option Time)) (default_ts : Time)
      (fields : List (String × V)) (groups : List (Time × List (String × V)))
      {result : List (Time × List (String × V))}
      → DistinctTimes (map (λ g. g.0) groups)
      → group_fields now age stamps default_ts fields groups ≡ ok result
      → DistinctTimes (map (λ g. g.0) result)
  unfolding group_fields
  group_fields_distinct now age stamps default_ts [] groups d h = rw (sym (ok_injective h)) d
  group_fields_distinct now age stamps default_ts ((name, v) ∷ fields) groups d h =
      let own = effective default_ts stamps name in
      group_fields_distinct now age stamps default_ts fields (put_group own name v groups)
        (put_group_distinct own name v groups d)
        (>>-eq-ok (check_own now age (own_instant stamps name)) _ h).1

  -- The fields of the reading of an instant.
  abbrev pub fields_at : Time → List (Reading V) → List (String × V)
  fields_at t [] = []
  fields_at t (r ∷ readings) = if r.timestamp == t then r.fields else fields_at t readings

  module _ (channel_id device_id : String) (tags : List (String × String)) where
    fields_at-map :
        (t : Time) (groups : List (Time × List (String × V)))
        → fields_at t (map (λ g. new_reading channel_id device_id g.1 tags g.0) groups)
          ≡ group_at t groups
    fields_at-map t [] = refl
    fields_at-map t ((u, fields) ∷ groups) = rw (fields_at-map t groups)

    times-map :
        (groups : List (Time × List (String × V)))
        → map
            (λ (r : Reading V). r.timestamp)
            (map (λ g. new_reading channel_id device_id g.1 tags g.0) groups)
          ≡ map (λ g. g.0) groups
    times-map [] = refl
    times-map ((u, fields) ∷ groups) = ap (λ ts. u ∷ ts) (times-map groups)

    labels-map :
        (groups : List (Time × List (String × V)))
        → All
            (λ (r : Reading V).
              (r.channel_id ≡ channel_id) × (r.device_id ≡ device_id) × (r.tags ≡ tags))
            (map (λ g. new_reading channel_id device_id g.1 tags g.0) groups)
    labels-map [] = tt
    labels-map (g ∷ groups) = ((refl, refl, refl), labels-map groups)

  filed-none : (b : Bool) (o : Option V) → filed b o none ≡ (if b then o else none)
  filed-none true none = refl
  filed-none true (some v) = refl
  filed-none false none = refl
  filed-none false (some v) = refl

  -- When an input is grouped, its fields' names being distinct: no two readings have the same
  -- instant, each field stands with its value in the reading of its own instant (its field timestamp,
  -- or else the default) and in no other, and every reading carries the input's ids and tags.
  pub group_by_timestamp_files :
      (now : Time) (age : ℕ) (input : IngestInput V) (default_ts : Time)
      {readings : List (Reading V)}
      → Distinct (map (λ f. f.0) input.fields)
      → group_by_timestamp now age input default_ts ≡ ok readings
      → DistinctTimes (map (λ r. r.timestamp) readings)
        × ((t : Time) (k : String)
            → lookup k (fields_at t readings) ≡ (
                if effective default_ts input.field_timestamps k == t
                then lookup k input.fields
                else none))
        × All
            (λ r.
              (r.channel_id ≡ input.channel_id)
              × (r.device_id ≡ input.device_id)
              × (r.tags ≡ input.tags))
            readings
  unfolding group_by_timestamp
  group_by_timestamp_files now age input default_ts d h =
      let file = λ (g : Time × List (String × V)).
        new_reading input.channel_id input.device_id g.1 input.tags g.0 in
      let stamps = input.field_timestamps in
      let (groups, grouped, built) =
        >>=-eq-ok (group_fields now age stamps default_ts input.fields [])
          (λ (gs : List (Time × List (String × V))). ok (map file gs)) h in
      rw (sym (ok_injective built)) (
        rw (times-map input.channel_id input.device_id input.tags groups)
            (group_fields_distinct now age stamps default_ts input.fields [] tt grouped),
        λ t k.
            ap (lookup k) (fields_at-map input.channel_id input.device_id input.tags t groups)
            ∙ group_fields-filed now age stamps default_ts input.fields [] t k d grouped
            ∙ filed-none (effective default_ts stamps k == t) (lookup k input.fields),
        labels-map input.channel_id input.device_id input.tags groups,
      )
