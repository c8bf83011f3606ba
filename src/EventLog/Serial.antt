-- ===== src/EventLog/Serial.antt =====
-- testbus/event.c: how events are sent from an agent to the master.
use testbus.Base.{Timeval, ℕ, ◌+◌, ◌*◌, ◌/◌, ◌%◌, ◌^◌, [], ◌∷◌, List, Option, none, some, CString}
use testbus.Dict.{
  Variant, init_dict, dict_add, dict_add_string, dict_add_uint32, dict_add_uint64,
  dict_add_byte_array, dict_get_by, get_string, get_uint32, get_uint64, dict_get_string,
  dict_get_uint32, dict_get_uint64, dict_get_byte_array_buffer,
}
use testbus.EventLog.{Event}

abbrev source_key : CString
source_key = b's' ∷ b'o' ∷ b'u' ∷ b'r' ∷ b'c' ∷ b'e' ∷ []

abbrev class_key : CString
class_key = b'c' ∷ b'l' ∷ b'a' ∷ b's' ∷ b's' ∷ []

abbrev type_key : CString
type_key = b't' ∷ b'y' ∷ b'p' ∷ b'e' ∷ []

abbrev seq_key : CString
seq_key = b's' ∷ b'e' ∷ b'q' ∷ []

abbrev timestamp_key : CString
timestamp_key = b't' ∷ b'i' ∷ b'm' ∷ b'e' ∷ b's' ∷ b't' ∷ b'a' ∷ b'm' ∷ b'p' ∷ []

abbrev data_key : CString
data_key = b'd' ∷ b'a' ∷ b't' ∷ b'a' ∷ []

-- The 64-bit number of microseconds.
abbrev pub timestamp : Timeval → ℕ
timestamp t = (1000000 * t.sec + t.usec) % 2 ^ 64

-- ni_testbus_event_serialize
unfoldable pub serialize : Event → Variant
unfolding dict_add
serialize ev =
    let d1 = (dict_add_string init_dict source_key ev.source).1 in
    let d2 = (dict_add_string d1 class_key ev.class).1 in
    let d3 = (dict_add_string d2 type_key ev.type).1 in
    let d4 = (dict_add_uint32 d3 seq_key ev.sequence).1 in
    let d5 = (dict_add_uint64 d4 timestamp_key (timestamp ev.timestamp)).1 in
    elim ev.content [ none ↦ d5 | some bytes ↦ (dict_add_byte_array d5 data_key bytes).1 ]

-- `ev->data`: NULL without an entry; the outer `none` is where the bytes of pointers are copied.
unfoldable pub content : Option (Option (List ℕ)) → Option (Option (List ℕ))
content none = some none
content (some none) = none
content (some (some bytes)) = some (some bytes)

-- ni_testbus_event_deserialize; `none` is FALSE, or a copy of the bytes of pointers.
unfoldable pub deserialize : Variant → Option Event
unfolding dict_get_by get_string get_uint32 get_uint64 dict_get_byte_array_buffer content
deserialize var = elim (dict_get_string var class_key) [
  | none ↦ none
  | some class ↦ elim (dict_get_string var source_key) [
    | none ↦ none
    | some source ↦ elim (dict_get_string var type_key) [
      | none ↦ none
      | some type ↦ elim (dict_get_uint32 var seq_key) [
        | none ↦ none
        | some seq ↦ elim (dict_get_uint64 var timestamp_key) [
          | none ↦ none
          | some time ↦ elim (content (dict_get_byte_array_buffer var data_key)) [
            | none ↦ none
            | some bytes ↦ some (record {
              class = class;
              source = source;
              type = type;
              sequence = seq;
              timestamp = record { sec = time / 1000000; usec = time % 1000000 };
              content = bytes;
            })
          ]
        ]
      ]
    ]
  ]
]
