-- ===== src/EventLog/Refine.antt =====
-- The log against a queue: every call at once.
use testbus.Base.{
  Timeval, ℕ, ◌+◌, ◌%◌, ◌^◌, ◌≡◌, List, [], ◌∷◌, ◌++◌, Option, none, some, arith, CString,
  if◌then◌else◌, ◌==◌,
}
use testbus.EventLog.{
  Event, Log, Monitor, type_name, add_event, consume, consume_upto, prune, flush, add_remote, purge,
}
use testbus.EventLog.Pending.{pending, IsValid, pop, drop_upto}

-- What a client of a log does, as calls.
pub data Op : Type 0 where
  adds : Monitor → ℕ → Option (List ℕ) → Timeval → Op
  receives : Option Event → Op
  consumes prunes flushes : Op
  consumes_upto purges : ℕ → Op

-- Each call on the log, with the event that ni_eventlog_consume returns.
unfoldable pub step : Log → Op → Option Event × Log
step log (adds m id content now) = (none, add_event log m id content now)
step log (receives event) = (none, (add_remote log event).0)
step log consumes = consume log
step log prunes = (none, prune log)
step log flushes = (none, flush log)
step log (consumes_upto seq) = (none, consume_upto log seq)
step log (purges seq) = (none, purge log seq)

unfoldable pub run : Log → List Op → List (Option Event)
run log [] = []
run log (op ∷ ops) = let (e, log') = step log op in e ∷ run log' ops

-- The specification: a queue, and the number that the next event gets.
pub record Queue : Type 0 where
  pub next : ℕ
  pub queue : List Event

pub offer : Queue → Option CString → Monitor → Option (List ℕ) → Timeval → Queue
offer q none m content now = q
offer q (some type) m content now = record {
  next = (q.next + 1) % 2 ^ 32;
  queue =
      q.queue
      ++ (record {
        class = some m.class.name;
        source = some m.name;
        type = some type;
        sequence = q.next;
        timestamp = now;
        content = content;
      })
        ∷ [];
}

pub spec_step : Queue → Op → Option Event × Queue
unfolding offer pop drop_upto
spec_step q (adds m id content now) = (none, offer q (type_name m.class id) m content now)
spec_step q (receives none) = (none, q)
spec_step q (receives (some e)) = (none, record q { queue = q.queue ++ e ∷ [] })
spec_step q consumes = let (e, es) = pop q.queue in (e, record q { queue = es })
spec_step q prunes = (none, record q { queue = [] })
spec_step q flushes = (none, record q { queue = [] })
spec_step q (consumes_upto seq) = (none, record q { queue = drop_upto seq q.queue })
spec_step q (purges seq) =
    (none, record q { queue = if seq == 0 then [] else drop_upto seq q.queue })

pub spec_run : Queue → List Op → List (Option Event)
spec_run q [] = []
spec_run q (op ∷ ops) = let (e, q') = spec_step q op in e ∷ spec_run q' ops

abbrev pub view : Log → Queue
view log = record { next = log.seqno; queue = pending log }

pub seqno-consume : (log : Log) → (consume log).1.seqno ≡ log.seqno
unfolding consume
seqno-consume log = ground arith

pub seqno-consume_upto : (log : Log) (seq : ℕ) → (consume_upto log seq).seqno ≡ log.seqno
unfolding consume_upto
seqno-consume_upto log seq = ground arith

-- One call: the same event, the same queue, and the invariant.
abbrev Matches : Log → Op → Type 0
Matches log op =
    ((step log op).0 ≡ (spec_step (view log) op).0)
    × (view (step log op).1 ≡ (spec_step (view log) op).1)
    × IsValid (step log op).1
