-- ===== src/Sinks/Influx/Plain.antt =====
-- The plainest client library for Influx: a point is its data, and every point and batch is made.
use conntracct.Prelude.{refl, true, some}
use conntracct.Sinks.Influx.{InfluxLib, PointData}
use conntracct.Sinks.Influx.Flow.{Accepts}

abbrev pub plain_lib : InfluxLib
plain_lib = record {
  Point = PointData;
  ip_string = λ addr. addr;
  new_point = λ d. some d;
  new_batch_points = λ db. true;
}

pub plain_lib-Accepts : Accepts plain_lib
plain_lib-Accepts = record { points = λ d _ _. (d, refl); batches = λ db. refl }
