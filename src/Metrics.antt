-- ===== src/Metrics.antt =====
-- internal/metrics/metrics.go: statusRecorder and InstrumentHandler. http.StatusText is a parameter, and
-- the duration is left out of an observation. Nothing in the repository calls InstrumentHandler.
pub mod Recorded
use env_forge.Prelude.{ℕ, List, [], ◌∷◌, ◌++◌, Text}
use env_forge.Go.{Result}

-- statusRecorder, with the calls of WriteHeader that it has passed on
pub record StatusRecorder : Type 0 where
  pub code : ℕ
  pub sent : List ℕ

-- an http.Handler, by what it does to the writer that it is given
abbrev pub Handler : Type 0
Handler = StatusRecorder → Result (Unit {0}) × StatusRecorder

-- WriteHeader
unfoldable pub write_header : ℕ → StatusRecorder → StatusRecorder
write_header code r = record { code = code; sent = r.sent ++ code ∷ [] }

-- an observation of HTTPRequestDuration, by its labels
pub record Observation : Type 0 where
  pub method : Text
  pub route : Text
  pub status : Text

-- What a request leaves: how the handler came back, what was passed on, the observations.
pub record Instrumented : Type 0 where
  pub result : Result (Unit {0})
  pub sent : List ℕ
  pub observed : List Observation

-- InstrumentHandler; the timer is deferred, so that it observes also after a panic
unfoldable pub instrument_handler :
    (ℕ → Text) → Text → Handler → Text → List Observation → Instrumented
instrument_handler status_text route h method before =
    let (r, rec) = h (record { code = 200; sent = [] }) in
    record {
      result = r;
      sent = rec.sent;
      observed =
          before ++ record { method = method; route = route; status = status_text rec.code } ∷ [];
    }
