-- ===== src/Ingestion/Positional/Indices.antt =====
-- Which indices the positional formats give to their values.
use native.Mathlib.Nat.{add-zero}
use green_lab.Prelude.{
  ℕ, zero, suc, ◌+◌, ◌%◌, ◌<◌, ◌≤◌, ◌≡◌, refl, ◌∙◌, ap, ◌++◌, Option, none, some, List, [], ◌∷◌,
  length, length-append, get_elem?, ◌==◌, ==_refl, ==_ne, if◌then◌else◌, arith,
}
use green_lab.Ingestion.Domain.{ok}
use green_lab.Ingestion.Batch.{CompactBatch}
use green_lab.Ingestion.Positional.{Payload, put_index, number_fields, unix_milli, parse}
use green_lab.Ingestion.Compact.{value_at}

module _ {V : Type 0} where
  value_at-put_index :
      (k j : ℕ) (v : V) (m : List (ℕ × V))
      → value_at j (put_index k v m) ≡ (if k == j then some v else value_at j m)
  unfolding value_at put_index
  value_at-put_index k j v [] = refl
  value_at-put_index k j v ((i, w) ∷ m) = ground (arith, value_at-put_index k j v m)

  -- The indices before `i` are not written.
  number_fields_before :
      (i k : ℕ) (f : List V) (m : List (ℕ × V))
      → k ≤ i
      → i + length f < 256
      → value_at k (number_fields i f m) ≡ value_at k m
  unfolding number_fields
  number_fields_before i k [] m h small = refl
  number_fields_before i k (v ∷ f) m h small =
      number_fields_before (i + 1) k f (put_index ((i + 1) % 256) v m) (omega arith) (omega arith)
      ∙ ground (arith, value_at-put_index ((i + 1) % 256) k v m)

  or_else : Option V → Option V → Option V
  or_else none b = b
  or_else (some a) b = some a

  number_fields_from :
      (i j : ℕ) (f : List V) (m : List (ℕ × V))
      → i + length f < 256
      → value_at (i + 1 + j) (number_fields i f m)
        ≡ or_else (get_elem? f j) (value_at (i + 1 + j) m)
  unfolding number_fields or_else
  number_fields_from i j [] m small = refl
  number_fields_from i zero (v ∷ f) m small =
      let small' : (i + 1) % 256 ≡ i + 1 = omega arith in
      let here : i + 1 + 0 ≡ i + 1 = omega arith in
      rw (here, small')
        (number_fields_before (i + 1) (i + 1) f (put_index (i + 1) v m) (omega arith) (omega arith)
          ∙ value_at-put_index (i + 1) (i + 1) v m
          ∙ rw (==_refl (i + 1)))
  number_fields_from i (suc j) (v ∷ f) m small =
      let small' : (i + 1) % 256 ≡ i + 1 = omega arith in
      let here : i + 1 + suc j ≡ i + 1 + 1 + j = omega arith in
      rw (here, small')
        (number_fields_from (i + 1) j f (put_index (i + 1) v m) (omega arith)
          ∙ ap (or_else (get_elem? f j)) (
              value_at-put_index (i + 1) (i + 1 + 1 + j) v m
              ∙ rw (==_ne (i + 1) (i + 1 + 1 + j) (λ e. omega arith))))

  or_else-none : (o : Option V) → or_else o none ≡ o
  unfolding or_else
  or_else-none none = refl
  or_else-none (some a) = refl

  pub value_at-number_fields :
      (f : List V) (j : ℕ)
      → length f < 256
      → value_at (suc j) (number_fields 0 f []) ≡ get_elem? f j
  unfolding value_at
  value_at-number_fields f j small =
      let here : suc j ≡ 0 + 1 + j = omega arith in
      rw here (number_fields_from 0 j f [] (omega arith) ∙ or_else-none (get_elem? f j))

  number_fields-append :
      (i : ℕ) (f : List V) (v : V) (m : List (ℕ × V))
      → number_fields i (f ++ v ∷ []) m
        ≡ put_index ((i + length f + 1) % 256) v (number_fields i f m)
  unfolding number_fields
  number_fields-append i [] v m = rw add-zero
  number_fields-append i (w ∷ f) v m =
      let here : i + suc (length f) + 1 ≡ i + 1 + length f + 1 = omega arith in
      rw here (number_fields-append (i + 1) f v (put_index ((i + 1) % 256) w m))

  -- A decoded payload with one to 255 values is accepted: the value at place j, from 0, has the index
  -- j + 1, an index past the last value has none, and the rest of the payload is passed on.
  pub parse-positional :
      (unmarshal : List ℕ → Option (Payload V)) (body : List ℕ) (p : Payload V)
      → unmarshal body ≡ some p
      → 0 < length p.f
      → length p.f < 256
      → (batch : CompactBatch V) × (parse unmarshal body ≡ ok batch)
        × ((j : ℕ) → value_at (suc j) batch.field_values ≡ get_elem? p.f j)
        × (batch.timestamp ≡ unix_milli p.t)
        × (batch.td_offsets ≡ p.td)
        × (batch.schema_version ≡ p.sv)
  unfolding parse
  parse-positional unmarshal body p h nonempty small = (
    record {
      field_values = number_fields 0 p.f [];
      timestamp = unix_milli p.t;
      td_offsets = p.td;
      schema_version = p.sv;
      device_id = "";
    },
    ground arith,
    λ j. value_at-number_fields p.f j small,
    refl,
    refl,
    refl,
  )

  -- No bound of eight values is checked, and the conversion to uint8 wraps: in an accepted payload of
  -- 257 values the last one takes the index of the first.
  pub parse_wraps :
      (unmarshal : List ℕ → Option (Payload V)) (body : List ℕ) (p : Payload V) (f : List V) (v : V)
      → unmarshal body ≡ some p
      → p.f ≡ f ++ v ∷ []
      → length f ≡ 256
      → (batch : CompactBatch V) × (parse unmarshal body ≡ ok batch)
        × (value_at 1 batch.field_values ≡ some v)
  unfolding parse
  parse_wraps unmarshal body p f v h shape long =
      let index : (0 + length f + 1) % 256 ≡ 1 = omega arith in
      let last : value_at 1 (number_fields 0 p.f []) ≡ some v =
        rw (shape, number_fields-append 0 f v [], index)
          (value_at-put_index 1 1 v (number_fields 0 f [])) in
      let nonempty : 0 < length p.f = rw shape (omega (arith, length-append {0} f (v ∷ []))) in
      (
        record {
          field_values = number_fields 0 p.f [];
          timestamp = unix_milli p.t;
          td_offsets = p.td;
          schema_version = p.sv;
          device_id = "";
        },
        ground arith,
        last,
      )
