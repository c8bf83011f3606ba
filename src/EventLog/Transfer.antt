-- ===== src/EventLog/Transfer.antt =====
-- An event that is sent arrives.
use testbus.Base.{◌/◌, ◌%◌, ◌^◌}
use testbus.EventLog.{Event}
use testbus.EventLog.Serial.{timestamp}

-- The event with the numbers of the dictionary.
abbrev received : Event → Event
received ev = record ev {
  sequence = ev.sequence % 2 ^ 32;
  timestamp = record {
    sec = timestamp ev.timestamp % 2 ^ 64 / 1000000;
    usec = timestamp ev.timestamp % 2 ^ 64 % 1000000;
  };
}
