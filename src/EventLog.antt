-- ===== src/EventLog.antt =====
-- dborb/monitor.c: the log of monitored events, on the agent that makes them and on the master.
pub mod Pending
pub mod Refine
pub mod Sequence
pub mod Serial
pub mod Transfer
use testbus.Base.{
  Timeval, ℕ, suc, ◌+◌, ◌-◌, ◌%◌, ◌^◌, List, [], ◌∷◌, ◌++◌, Option, none, some, Bool, true, false,
  ◌||◌, CString, get_elem?, length, drop, if◌then◌else◌, ◌==◌, ltb, leb,
}

-- struct ni_event. `class` and `type` are its kind; the buffer is its bytes.
pub record Event : Type 0 where
  pub class : Option CString
  pub source : Option CString
  pub type : Option CString
  pub sequence : ℕ
  pub timestamp : Timeval
  pub content : Option (List ℕ)

-- struct ni_eventlog
pub record Log : Type 0 where
  pub consumed : ℕ
  pub seqno : ℕ
  pub events : List Event

-- ni_event_class_t, less its callbacks.
pub record EventClass : Type 0 where
  pub name : CString
  pub max_type : ℕ
  pub type_names : List (Option CString)

-- struct ni_monitor, what an event is made from.
pub record Monitor : Type 0 where
  pub name : CString
  pub class : EventClass

-- ni_eventlog_new, in memory that ni_malloc has cleared.
abbrev pub new : Log
new = record { consumed = 0; seqno = 1; events = [] }

-- `id >= class->max_type || !(type = class->type_names[id])`; `none` is the error.
unfoldable pub type_name : EventClass → ℕ → Option CString
type_name class id =
    if leb class.max_type id
    then none
    else elim (get_elem? class.type_names id) [ none ↦ none | some name ↦ name ]

-- The rest of ni_eventlog_add_event, once the type is known.
unfoldable pub log_event : Log → Monitor → Option CString → Option (List ℕ) → Timeval → Log
log_event log source none content now = log
log_event log source (some type) content now = record log {
  seqno = (log.seqno + 1) % 2 ^ 32;
  events =
      log.events
      ++ (record {
        class = some source.class.name;
        source = some source.name;
        type = some type;
        sequence = log.seqno;
        timestamp = now;
        content = content;
      })
        ∷ [];
}

-- ni_eventlog_add_event, with what gettimeofday returns. An unknown event type leaves the log alone.
unfoldable pub add_event : Log → Monitor → ℕ → Option (List ℕ) → Timeval → Log
add_event log source id content now = log_event log source (type_name source.class id) content now

-- ni_eventlog_last
pub last : Log → Option Event
last log =
    if leb (length log.events) log.consumed
    then none
    else get_elem? log.events (length log.events - 1)

-- ni_eventlog_consume
unfoldable pub consume : Log → Option Event × Log
consume log =
    if leb (length log.events) log.consumed
    then (none, log)
    else (get_elem? log.events log.consumed, record log { consumed = log.consumed + 1 })

-- The loop of ni_eventlog_consume_upto over events[i..], counting `i` up.
unfoldable pub skip_upto : ℕ → ℕ → List Event → ℕ
skip_upto seq i [] = i
skip_upto seq i (e ∷ es) = if ltb seq e.sequence then i else skip_upto seq (i + 1) es

-- ni_eventlog_consume_upto
unfoldable pub consume_upto : Log → ℕ → Log
unfolding skip_upto
consume_upto log seq =
    let i = skip_upto seq log.consumed (drop log.consumed log.events) in
    if ltb log.consumed i then record log { consumed = i } else log

-- ni_eventlog_prune and ni_eventlog_flush differ in a warning only. The numbering goes on.
pub prune : Log → Log
prune log = record log { events = []; consumed = 0 }

pub flush : Log → Log
flush log = record log { events = []; consumed = 0 }

-- ni_eventlog_pending_count; `none` is the failed assertion.
pub pending_count : Log → Option ℕ
pending_count log =
    if leb log.consumed (length log.events) then some (length log.events - log.consumed) else none

-- Eventlog.add of server/dbus-eventlog.c: `event` is what ni_testbus_event_deserialize makes of the
-- argument. On success the sequence number goes out in the signal eventsAdded.
pub add_remote : Log → Option Event → Log × Option ℕ
add_remote log none = (log, none)
add_remote log (some event) =
    (record log { events = log.events ++ event ∷ [] }, some event.sequence)

-- Eventlog.purge of server/dbus-eventlog.c.
pub purge : Log → ℕ → Log
purge log upto = if upto == 0 then flush log else consume_upto log upto

-- The loop of __ni_testbus_eventlog_get_events.
pub get_events : Log → List Event
get_events log = drop log.consumed log.events
