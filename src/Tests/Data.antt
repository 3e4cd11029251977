-- ===== src/Tests/Data.antt =====
-- The inputs that the tests share.
use mathlib.Core.Bool.{false≢true}
use green_lab.Prelude.{◌≢◌, eq_iff, ℕ, ◌*◌, String, Option, none, some, List, [], ◌∷◌}
use green_lab.Ingestion.Domain.{Time, second, DeviceSchema, Reading}
use green_lab.Ingestion.Batch.{CompactBatch}
use green_lab.Ingestion.Compact.{IngestInput}

abbrev pub channel_id : String
channel_id = "11111111-1111-1111-1111-111111111111"

abbrev pub device_id : String
device_id = "0A1b2c3d-1111-1111-1111-111111111111"

abbrev pub as_float : ℕ → ℕ
as_float raw = raw

abbrev pub now : Time
now = 1700000000 * second

abbrev pub schema : DeviceSchema
schema = record {
  device_id = device_id;
  channel_id = channel_id;
  fields =
      record { index = 1; name = "temperature"; type = "float" }
      ∷ record { index = 3; name = "humidity"; type = "float" }
      ∷ [];
  schema_version = 4;
}

-- The first and the third field.
abbrev pub slots : List (Option ℕ)
slots = some 215 ∷ none ∷ some 40000 ∷ none ∷ none ∷ none ∷ none ∷ none ∷ []

abbrev pub batch : CompactBatch ℕ
batch = record {
  field_values = (1, 215) ∷ (3, 60) ∷ [];
  timestamp = some now;
  td_offsets = 0 ∷ 250 ∷ [];
  schema_version = 4;
  device_id = "";
}

abbrev pub input : IngestInput ℕ
input = record {
  channel_id = channel_id;
  device_id = device_id;
  fields = ("temperature", 215) ∷ ("humidity", 60) ∷ [];
  field_timestamps = ("humidity", some (1699999999 * second)) ∷ [];
  tags = ("site", "north") ∷ [];
  timestamp = some now;
}

abbrev pub empty_input : IngestInput ℕ
empty_input = record input { fields = [] }

abbrev pub readings : List (Reading ℕ)
readings =
    record {
      channel_id = channel_id;
      device_id = device_id;
      fields = ("temperature", 215) ∷ [];
      tags = ("site", "north") ∷ [];
      timestamp = now;
    }
    ∷ record {
      channel_id = channel_id;
      device_id = device_id;
      fields = ("humidity", 60) ∷ [];
      tags = ("site", "north") ∷ [];
      timestamp = 1699999999 * second;
    }
    ∷ []

pub distinct : ◌≢◌ {A = String} "temperature" "humidity"
distinct h = absurd (false≢true ((eq_iff "temperature" "humidity").1 h))
