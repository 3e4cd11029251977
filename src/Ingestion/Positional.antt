-- ===== src/Ingestion/Positional.antt =====
-- services/ingestion/internal/transport/http: deserialize_ojson.go and deserialize_msgpack.go.
-- The two formats differ in their codec alone. `json.Unmarshal` and `msgpack.Unmarshal` are the
-- parameter `unmarshal`; `none` is the error that they return.
pub mod Indices
use green_lab.Prelude.{
  ℕ, suc, ◌+◌, ◌*◌, ◌%◌, String, Bool, true, false, Option, none, some, List, [], ◌∷◌, ◌==◌,
  if◌then◌else◌,
}
use green_lab.Ingestion.Domain.{millisecond, empty_fields, codec_error, Result, ok, err}
use green_lab.Ingestion.Batch.{CompactBatch}

-- ojsonPayload and msgpackPayload: the keys f, t, td and sv.
pub record Payload (V : Type 0) : Type 0 where
  pub f : List V
  pub t : Option ℕ  -- *int64, Unix milliseconds
  pub td : List ℕ  -- []uint16
  pub sv : ℕ  -- uint32

-- time.UnixMilli(*p.T).UTC(), where the key is present.
unfoldable pub unix_milli : Option ℕ → Option ℕ
unix_milli none = none
unix_milli (some ms) = some (ms * millisecond)

module _ {V : Type 0} where
  -- m[k] = v, on a map[uint8]float64
  unfoldable pub put_index : ℕ → V → List (ℕ × V) → List (ℕ × V)
  put_index k v [] = (k, v) ∷ []
  put_index k v ((j, w) ∷ m) = if j == k then (k, v) ∷ m else (j, w) ∷ put_index k v m

  -- `for i, v := range p.F { fieldValues[uint8(i+1)] = v }`: the conversion wraps.
  unfoldable pub number_fields : ℕ → List V → List (ℕ × V) → List (ℕ × V)
  number_fields i [] m = m
  number_fields i (v ∷ f) m = number_fields (i + 1) f (put_index ((i + 1) % 256) v m)

  unfoldable pub parse : (List ℕ → Option (Payload V)) → List ℕ → Result (CompactBatch V)
  parse unmarshal body = elim (unmarshal body) [
    | none ↦ err codec_error
    | some p ↦ elim p.f [
      | [] ↦ err empty_fields
      | v ∷ rest ↦ ok (record {
        field_values = number_fields 0 p.f [];
        timestamp = unix_milli p.t;
        td_offsets = p.td;
        schema_version = p.sv;
        device_id = "";
      })
    ]
  ]
