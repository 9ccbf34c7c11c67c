-- ===== src/Storage/Memory.antt =====
-- A client that keeps its tables in memory: the assumptions on the client can be met.
use distributed_tracing_plat.Storage.{Tables, Client}
use distributed_tracing_plat.Storage.Laws.{apply_insert, SameTables, IsLawful}

abbrev pub memory : {F : Type 0} → Client F
memory {F} = record { State = Tables F; insert = apply_insert; tables = λ t. t }

SameTables-refl : {F : Type 0} (t : Tables F) → SameTables t t
SameTables-refl t = record {
  spans = λ r. (λ m. m, λ m. m);
  trace_summaries = λ r. (λ m. m, λ m. m);
  span_classifications = λ r. (λ m. m, λ m. m);
  service_edges = λ r. (λ m. m, λ m. m);
  service_clock_offsets = λ r. (λ m. m, λ m. m);
  service_stats = λ r. (λ m. m, λ m. m);
  service_baselines = λ r. (λ m. m, λ m. m);
  edge_baselines = λ r. (λ m. m, λ m. m);
  detections = λ r. (λ m. m, λ m. m);
  detected_incidents = λ r. (λ m. m, λ m. m);
}

pub memory-IsLawful : {F : Type 0} → IsLawful (memory {F = F})
memory-IsLawful = record { tables-insert = λ i t. SameTables-refl (apply_insert i t) }
