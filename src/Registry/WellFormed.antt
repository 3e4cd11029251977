-- ===== src/Registry/WellFormed.antt =====
-- The tables of devices, channels and fields are well formed, and the calls of the database leave
-- them so.
pub mod Calls
pub mod Methods
pub mod Operations
use green_lab.Prelude.{
  ℕ, suc, ◌≡◌, refl, sym, ◌∙◌, ap, subst, String, Bool, true, false, not, ◌&&◌, ◌||◌, Bool-cases,
  Option-cases, inl, inr, Option, none, some, List, [], ◌∷◌, ◌++◌, map, All, All-append, All-weaken,
  str_eq, eq_iff, arith, if◌then◌else◌,
}
use green_lab.Prelude.Actions.{find_row}
use green_lab.Prelude.Tables.{
  absent, distinct, distinct-append, find_row-absent, distinct-map, All-map, All-find_row,
}
use green_lab.Ingestion.Domain.{Time}
use green_lab.Registry.Integers.{within}
use green_lab.Registry.Device.{Device, is_status}
use green_lab.Registry.Channel.{Channel, Field, is_visibility, is_field_type}
use green_lab.Registry.Tables.{Db, DbCall, known_device, update_device_row}
use green_lab.Registry.Cache.{known_channel}

abbrev pub Known : List Device → Option String → Type 0
Known devices id = known_device id devices ≡ true

-- Each status is one of the three.
abbrev pub GoodDevice : Device → Type 0
GoodDevice d = is_status d.status ≡ true

abbrev pub GoodChannel : Channel → Type 0
GoodChannel ch = is_visibility ch.visibility ≡ true

abbrev pub GoodField : Field → Type 0
GoodField f = (within 1 8 f.position ≡ true) × (is_field_type f.field_type ≡ true)

abbrev pub DevicesOk : List Device → Type 0
DevicesOk ds =
    (distinct (λ (d : Device). d.id) ds ≡ true)
    × (distinct (λ (d : Device). d.api_key) ds ≡ true)
    × All GoodDevice ds

-- A channel's device has a row.
abbrev pub ChannelsOk : List Device → List Channel → Type 0
ChannelsOk ds cs =
    (distinct (λ (c : Channel). c.id) cs ≡ true)
    × All (λ (c : Channel). GoodChannel c × Known ds c.device_id) cs

-- A field's channel has a row.
abbrev pub FieldsOk : List Channel → List Field → Type 0
FieldsOk cs fs =
    (distinct (λ (f : Field). f.id) fs ≡ true)
    × All (λ (f : Field). GoodField f × (known_channel f.channel_id cs ≡ true)) fs

abbrev pub WellFormed : Db → Type 0
WellFormed s = DevicesOk s.devices × ChannelsOk s.devices s.channels × FieldsOk s.channels s.fields

-- What is found by an ID stays found when rows are added or changed.
abbrev found_by : {A : Type 0} → (A → String) → String → List A → Bool
found_by key id rows = elim (find_row (λ row. str_eq (key row) id) rows) [
  | none ↦ false
  | some row ↦ true
]

found_by-append :
    {A : Type 0} (key : A → String) (id : String) (rows more : List A)
    → found_by key id rows ≡ true
    → found_by key id (rows ++ more) ≡ true
unfolding find_row
found_by-append key id [] more h = absurd (cc)
found_by-append key id (row ∷ rows) more h = ground (arith, found_by-append key id rows more)

found_by-map :
    {A : Type 0} (key : A → String) (id : String) (f : A → A) (rows : List A)
    → ((row : A) → key (f row) ≡ key row)
    → found_by key id rows ≡ true
    → found_by key id (map f rows) ≡ true
unfolding find_row
found_by-map key id f [] same h = absurd (cc)
found_by-map key id f (row ∷ rows) same h =
    ground (arith, same row, found_by-map key id f rows same)

pub Known-append :
    (ds more : List Device) (id : Option String) → Known ds id → Known (ds ++ more) id
Known-append ds more none h = refl
Known-append ds more (some id) h = found_by-append (λ (d : Device). d.id) id ds more h

pub Known-map :
    (f : Device → Device) (ds : List Device) (id : Option String)
    → ((d : Device) → (f d).id ≡ d.id)
    → Known ds id
    → Known (map f ds) id
Known-map f ds none same h = refl
Known-map f ds (some id) same h = found_by-map (λ (d : Device). d.id) id f ds same h

-- More devices, or devices with the same IDs, do as well for the channels.
pub ChannelsOk-weaken :
    (ds es : List Device) (cs : List Channel)
    → ((id : Option String) → Known ds id → Known es id)
    → ChannelsOk ds cs
    → ChannelsOk es cs
ChannelsOk-weaken ds es cs more (unique, good) = (
  unique,
  All-weaken _ (λ (c : Channel). GoodChannel c × Known es c.device_id) cs
      (λ c h. (h.0, more c.device_id h.1)) good,
)

pub FieldsOk-weaken :
    (cs es : List Channel) (fs : List Field)
    → ((id : String) → known_channel id cs ≡ true → known_channel id es ≡ true)
    → FieldsOk cs fs
    → FieldsOk es fs
FieldsOk-weaken cs es fs more (unique, good) = (
  unique,
  All-weaken _ (λ (f : Field). GoodField f × (known_channel f.channel_id es ≡ true)) fs
      (λ f h. (h.0, more f.channel_id h.1)) good,
)

pub FieldsOk-append :
    (cs more : List Channel) (fs : List Field) → FieldsOk cs fs → FieldsOk (cs ++ more) fs
FieldsOk-append cs more fs =
    FieldsOk-weaken cs (cs ++ more) fs (λ id. found_by-append (λ (c : Channel). c.id) id cs more)

pub FieldsOk-map :
    (f : Channel → Channel) (cs : List Channel) (fs : List Field)
    → ((c : Channel) → (f c).id ≡ c.id)
    → FieldsOk cs fs
    → FieldsOk (map f cs) fs
FieldsOk-map f cs fs same =
    FieldsOk-weaken cs (map f cs) fs (λ id. found_by-map (λ (c : Channel). c.id) id f cs same)

-- Only the row with the ID is changed, and it takes a key that no other row has.
abbrev pub taken : Device → Device → Bool
taken d row = str_eq row.api_key d.api_key && not (str_eq row.id d.id)

absent-update :
    (now : Time) (d : Device) (k : String) (rows : List Device)
    → str_eq d.api_key k ≡ false
    → absent (λ (r : Device). r.api_key) k rows ≡ true
    → absent (λ (r : Device). r.api_key) k (map (update_device_row now d) rows) ≡ true
absent-update now d k [] other n = refl
absent-update now d k (row ∷ rows) other n = ground (arith, absent-update now d k rows other)

-- No other row has the ID, so none is changed, and none has the key.
absent-untouched :
    (now : Time) (d : Device) (rows : List Device)
    → absent (λ (r : Device). r.id) d.id rows ≡ true
    → find_row (taken d) rows ≡ none
    → absent (λ (r : Device). r.api_key) d.api_key (map (update_device_row now d) rows) ≡ true
unfolding find_row
absent-untouched now d [] n free = refl
absent-untouched now d (row ∷ rows) n free = ground (arith, absent-untouched now d rows)

distinct-untouched :
    (now : Time) (d : Device) (rows : List Device)
    → absent (λ (r : Device). r.id) d.id rows ≡ true
    → map (update_device_row now d) rows ≡ rows
distinct-untouched now d [] n = refl
distinct-untouched now d (row ∷ rows) n = ground (arith, distinct-untouched now d rows)

pub distinct-update :
    (now : Time) (d : Device) (rows : List Device)
    → distinct (λ (r : Device). r.id) rows ≡ true
    → distinct (λ (r : Device). r.api_key) rows ≡ true
    → find_row (taken d) rows ≡ none
    → distinct (λ (r : Device). r.api_key) (map (update_device_row now d) rows) ≡ true
unfolding find_row
distinct-update now d [] ids keys free = refl
distinct-update now d (row ∷ rows) ids keys free = elim (Bool-cases (str_eq row.id d.id)) [
  | inl same ↦
      let same_id : row.id ≡ d.id = (eq_iff row.id d.id).0 same in
      let no_id = subst (λ k. absent (λ (r : Device). r.id) k rows ≡ true) same_id (ground arith) in
      ground (arith, absent-untouched now d rows no_id, distinct-untouched now d rows no_id)
  | inr other ↦ ground (
    arith,
    eq_iff row.api_key d.api_key,
    eq_iff d.api_key row.api_key,
    absent-update now d row.api_key rows,
    distinct-update now d rows,
  )
]
