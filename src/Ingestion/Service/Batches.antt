-- ===== src/Ingestion/Service/Batches.antt =====
-- Ingest and IngestBatch publish all of a request in one call, or nothing.
use green_lab.Prelude.{
  ℕ, refl, sym, ◌⊎◌, inl, inr, ◌≡◌, ◌∙◌, ap, Option, none, some, List, [], ◌∷◌, ◌++◌,
}
use mathlib.Core.List.{append_assoc, append-nil}
use green_lab.Ingestion.Domain.{Time, Error, Result, ◌>>=◌, ok, err, Reading}
use green_lab.Ingestion.Compact.{IngestInput}
use green_lab.Ingestion.Service.{
  publish_readings, returned, prepare_item, prepare, collect, Exit, Effect, ingest_batch, ingest,
}

Result-cases : {A : Type 0} (r : Result A) → ((a : A) × (r ≡ ok a)) ⊎ ((e : Error) × (r ≡ err e))
Result-cases (ok a) = inl (a, refl)
Result-cases (err e) = inr (e, refl)

bind-ok : {A : Type 0} (r : Result A) → (r >>= ok) ≡ r
bind-ok (ok a) = refl
bind-ok (err e) = refl

module _ {V : Type 0} (now : Time) (age : ℕ) where
  -- The readings of a list of inputs, each of which is accepted.
  pub data Prepares : List (IngestInput V) → List (Reading V) → Type 0 where
    none_left : Prepares [] []
    next :
        {input : IngestInput V} {inputs : List (IngestInput V)}
        {grouped readings : List (Reading V)}
        → prepare_item now age input ≡ ok grouped
        → Prepares inputs readings
        → Prepares (input ∷ inputs) (grouped ++ readings)

  collect-Prepares :
      {inputs : List (IngestInput V)} {readings : List (Reading V)} (batch : List (Reading V))
      → Prepares inputs readings
      → collect now age inputs batch ≡ ok (batch ++ readings)
  unfolding collect
  collect-Prepares batch none_left = rw append-nil
  collect-Prepares batch (next {grouped = g} {readings = r} h rest) =
      rw h (collect-Prepares (batch ++ g) rest ∙ ap ok (append_assoc batch g r))

  collect_refused :
      {inputs : List (IngestInput V)} {readings : List (Reading V)} (batch : List (Reading V))
      (bad : IngestInput V) (post : List (IngestInput V)) (e : Error)
      → Prepares inputs readings
      → prepare_item now age bad ≡ err e
      → collect now age (inputs ++ bad ∷ post) batch ≡ err e
  unfolding collect
  collect_refused batch bad post e none_left h = rw h
  collect_refused batch bad post e (next {grouped = g} h rest) k =
      rw h (collect_refused (batch ++ g) bad post e rest k)

  -- If every input is accepted, all their readings are published in the inputs' order, in one call,
  -- and the publisher's answer is the result.
  pub ingest_batch-Prepares :
      (answer : Option Error) (input : IngestInput V) (inputs : List (IngestInput V))
      (readings : List (Reading V))
      → Prepares (input ∷ inputs) readings
      → ingest_batch now age answer (input ∷ inputs)
        ≡ (returned answer, publish_readings readings ∷ [])
  unfolding ingest_batch
  ingest_batch-Prepares answer input inputs readings h = rw (collect-Prepares [] h)

  -- The first input that is refused ends the batch with its error, and nothing is published.
  pub ingest_batch_refused :
      (answer : Option Error) (pre : List (IngestInput V)) (readings : List (Reading V))
      (bad : IngestInput V) (post : List (IngestInput V)) (e : Error)
      → Prepares pre readings
      → prepare_item now age bad ≡ err e
      → ingest_batch now age answer (pre ++ bad ∷ post) ≡ (returned (some e), [])
  unfolding ingest_batch
  ingest_batch_refused answer [] readings bad post e h k =
      rw (collect_refused [] bad post e none_left k)
  ingest_batch_refused answer (input ∷ pre) readings bad post e h k =
      rw (collect_refused [] bad post e h k)

  prepare_item-prepare :
      (input : IngestInput V) → prepare_item now age input ≡ prepare now age input
  unfolding prepare_item prepare
  prepare_item-prepare input = refl

  -- What single writes publish, one after the other, up to the first that fails.
  abbrev pub followed_by :
      Exit × List (Effect V) → Result (List (Reading V)) → Result (List (Reading V))
  followed_by (returned none, publish_readings readings ∷ []) (ok more) = ok (readings ++ more)
  followed_by (returned none, publish_readings readings ∷ []) (err e) = err e
  followed_by (returned (some e), _) rest = err e
  followed_by _ rest = rest

  abbrev pub one_by_one : List (IngestInput V) → Result (List (Reading V))
  one_by_one [] = ok []
  one_by_one (input ∷ inputs) = followed_by (ingest now age none input) (one_by_one inputs)

  -- The readings of all in one call, or the error.
  abbrev pub at_once : Option Error → Result (List (Reading V)) → Exit × List (Effect V)
  at_once answer (ok readings) = (returned answer, publish_readings readings ∷ [])
  at_once answer (err e) = (returned (some e), [])

  after : List (Reading V) → Result (List (Reading V)) → Result (List (Reading V))
  after batch (ok readings) = ok (batch ++ readings)
  after batch (err e) = err e

  after-followed_by :
      (batch grouped : List (Reading V)) (rest : Result (List (Reading V)))
      → after (batch ++ grouped) rest
        ≡ after batch (followed_by (returned none, publish_readings grouped ∷ []) rest)
  unfolding after
  after-followed_by batch grouped (ok more) = ap ok (append_assoc batch grouped more)
  after-followed_by batch grouped (err e) = refl

  collect-one_by_one :
      (inputs : List (IngestInput V)) (batch : List (Reading V))
      → collect now age inputs batch ≡ after batch (one_by_one inputs)
  unfolding collect after ingest
  collect-one_by_one [] batch = ap ok (sym (append-nil batch))
  collect-one_by_one (input ∷ inputs) batch = elim (Result-cases (prepare now age input)) [
    | inl (grouped, h) ↦
        let item = prepare_item-prepare input ∙ h in
        rw (item, h)
          (collect-one_by_one inputs (batch ++ grouped)
            ∙ after-followed_by batch grouped (one_by_one inputs))
    | inr (e, h) ↦ let item = prepare_item-prepare input ∙ h in rw (item, h) refl
  ]

  after_nothing : (r : Result (List (Reading V))) → after [] r ≡ r
  unfolding after
  after_nothing (ok readings) = refl
  after_nothing (err e) = refl

  ingest_batch-at_once :
      (answer : Option Error) (input : IngestInput V) (inputs : List (IngestInput V))
      (r : Result (List (Reading V)))
      → collect now age (input ∷ inputs) [] ≡ r
      → ingest_batch now age answer (input ∷ inputs) ≡ at_once answer r
  unfolding ingest_batch
  ingest_batch-at_once answer input inputs (ok readings) h = rw h
  ingest_batch-at_once answer input inputs (err e) h = rw h

  -- A batch does in one call what single writes of its inputs do one after the other: if each of the
  -- single writes succeeds, all that they publish is published at once, in the inputs' order, and the
  -- publisher's answer is the result; otherwise the batch ends with the error of the first that is
  -- refused, and nothing is published. So a batch of one input is a single write of it, whatever the
  -- publisher answers.
  pub ingest_batch-ingest :
      (answer : Option Error) (input : IngestInput V) (inputs : List (IngestInput V))
      → (ingest_batch now age answer (input ∷ inputs)
          ≡ at_once answer (one_by_one (input ∷ inputs)))
        × (ingest_batch now age answer (input ∷ []) ≡ ingest now age answer input)
  unfolding ingest_batch ingest collect
  ingest_batch-ingest answer input inputs = (
    ingest_batch-at_once answer input inputs (one_by_one (input ∷ inputs))
        (collect-one_by_one (input ∷ inputs) [] ∙ after_nothing (one_by_one (input ∷ inputs))),
    rw (prepare_item-prepare input, bind-ok (prepare now age input)) refl,
  )
