-- ===== src/Tests/Logs.antt =====
-- dborb/monitor.c at small inputs.
use testbus.Base.{Timeval, ℕ, ◌≡◌, refl, List, [], ◌∷◌, none, some}
use testbus.EventLog.{
  Event, Log, Monitor, type_name, log_event, add_event, consume, skip_upto, consume_upto,
}
use testbus.EventLog.Refine.{Op, adds, consumes, consumes_upto, run, step}

abbrev filemon : Monitor
filemon = record {
  name = b'f' ∷ [];
  class = record {
    name = b'c' ∷ [];
    max_type = 2;
    type_names = some (b'd' ∷ []) ∷ some (b't' ∷ []) ∷ [];
  };
}

abbrev now : Timeval
now = record { sec = 5; usec = 0 }

abbrev event : ℕ → Event
event n = record {
  class = some (b'c' ∷ []);
  source = some (b'f' ∷ []);
  type = some (b'd' ∷ []);
  sequence = n;
  timestamp = now;
  content = none;
}

-- Three events, the first consumed.
abbrev log : Log
log = record { consumed = 1; seqno = 4; events = event 1 ∷ event 2 ∷ event 3 ∷ [] }

abbrev script : List Op
script =
    adds filemon 0 none now
    ∷ adds filemon 7 none now
    ∷ consumes_upto 2
    ∷ consumes
    ∷ consumes
    ∷ consumes
    ∷ []

run-script : run log script ≡ none ∷ none ∷ none ∷ some (event 3) ∷ some (event 4) ∷ none ∷ []
unfolding run step add_event type_name log_event consume consume_upto skip_upto
run-script = refl
