-- ===== src/Ingestion/Batch.antt =====
-- CompactBatch of services/ingestion/internal/transport/http/deserialize.go.
use green_lab.Prelude.{ℕ, String, Option, List}
use green_lab.Ingestion.Domain.{Time}

pub record CompactBatch (V : Type 0) : Type 0 where
  pub field_values : List (ℕ × V)  -- map[uint8]float64
  pub timestamp : Option Time
  pub td_offsets : List ℕ  -- []uint16
  pub schema_version : ℕ  -- uint32
  pub device_id : String
