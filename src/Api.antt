-- ===== src/Api.antt =====
-- internal/apiserver: the HTTP server, and its one handler. The packages net/http, encoding/json
-- and fmt are not part of the repository: they are arguments.
pub mod Reports
mod Tests
use conntracct.Prelude.{
  ℕ, refl, Bool, true, false, List, [], ◌∷◌, Option, none, some, String, str_eq, str_eq_iff, Go, ok,
  panic, ◌>>=◌, ◌⊎◌, inl, inr, if◌then◌else◌,
}
use conntracct.GoMap.{KeyEq, assign}
use conntracct.Bpf.Stats.{ProbeStats}
use conntracct.Sinks.Types.{SinkStats}
use conntracct.Sinks.Sink.{SinkOps}
use conntracct.Pipeline.{Pipeline}
use conntracct.Pipeline.Snapshot.{PipelineReport, get_sinks, probe_stats, get_stats}

pub data ApiError : Type 0 where
  no_pipe not_init : ApiError

-- The two variables of the package; the handle is a pointer.
pub record Api (Handle : Type 0) : Type 0 where
  pub pipe : Option Handle
  pub init_success : Bool

abbrev pub new : {Handle : Type 0} → Api Handle
new = record { pipe = none; init_success = false }

-- `http.NewServeMux`, and `http.Handle` on the default multiplexer.
pub record HttpLib : Type 1 where
  pub Mux : Type 0
  pub new_mux : Mux
  pub handle : String → Mux → Go Mux

-- What the handler sends: the header, which status, and the text after it.
pub record Response : Type 0 where
  pub status : ℕ
  pub content_type : Option String
  pub body : String

-- What is marshalled.
pub record Report : Type 0 where
  pub probe : ProbeStats
  pub pipeline : PipelineReport
  pub sinks : List (String × SinkStats)

-- The rest of the library: `json.Marshal`, the text of its error, and `fmt` on a format without
-- operands.
pub record ReplyLib : Type 0 where
  pub marshal : Report → String ⊎ String
  pub format : String → String

abbrev pub name_eq : KeyEq String
name_eq = record {
  same = str_eq;
  same_refl = λ k. (str_eq_iff k k).1 refl;
  same_sound = λ k l. (str_eq_iff k l).0;
}

module _ {Handle : Type 0} where
  unfoldable pub init : Option Handle → Api Handle → Api Handle × Option ApiError
  init none api = (api, some no_pipe)
  init (some p) api = (record api { pipe = some p; init_success = true }, none)

  -- `Run`. The listener that it starts is left out.
  unfoldable pub run : (lib : HttpLib) → Api Handle → lib.Mux → Go (lib.Mux × Option ApiError)
  run lib api mux =
      if api.init_success
      then (lib.handle "/" mux >>= λ m. ok (m, none))
      else ok (mux, some not_init)

module _ (ops : SinkOps) (lib : ReplyLib) where
  open ops use {Sink, name, stats}

  -- The loop over the sinks.
  unfoldable pub sinks_by_name : List Sink → List (String × SinkStats) → List (String × SinkStats)
  sinks_by_name [] m = m
  sinks_by_name (s ∷ ss) m = sinks_by_name ss (assign name_eq (name s) (stats s) m)

  -- `write` ends the process when the stream does not take the text, which is `none` here.
  write : Bool → ℕ → Option String → String → Option Response
  write taken status content_type text =
      if taken
      then some (record { status = status; content_type = content_type; body = text })
      else none

  answer : Bool → String ⊎ String → Option Response
  unfolding write
  answer taken (inl err) = write taken 500 none (lib.format err)
  answer taken (inr out) = write taken 200 (some "application/json") out

  -- `HandleStats` while the pipeline does not change.
  unfoldable pub handle_stats : Bool → Api (Pipeline Sink) → Go (Option Response)
  unfolding answer
  handle_stats taken api = elim api.pipe [
    | none ↦ panic
    | some p ↦ probe_stats p >>= λ probe. ok (
        answer taken (
          lib.marshal (record {
            probe = probe;
            pipeline = get_stats p;
            sinks = sinks_by_name (get_sinks p) [];
          })))
  ]
