-- ===== src/Tests/Messages.antt =====
-- testbus/event.c, testbus/file.c and the dictionaries of dborb/dbus-common.c at small inputs.
use testbus.Base.{◌≡◌, refl, [], ◌∷◌, none, some, false, str_eq}
use testbus.Dict.{
  Variant, dict, entry, no_entries, invalid, uint16_value, bool_value, dict_array_init, init_dict,
  append_entry, dict_add, dict_add_bool, dict_add_uint16, dict_get, find_entry, raw_bytes, get_bool,
  dict_get_by, dict_get_bool, dict_get_byte_array_buffer, dict_array_add, dict_array_at,
  nth_variant, append_variant,
}
use testbus.FileStore.{File, Store}
use testbus.FileArray.{FileArray}
use testbus.EventLog.{Event}

abbrev event : Event
event = record {
  class = some (b'f' ∷ []);
  source = some (b's' ∷ []);
  type = some (b't' ∷ []);
  sequence = 7;
  timestamp = record { sec = 3; usec = 500000 };
  content = some (1 ∷ 2 ∷ []);
}

abbrev input : File
input = record {
  refcount = 3;
  id = 9;
  object_path = none;
  name = some (b'i' ∷ []);
  mode = 1;
  inum = 40;
  iseq = 2;
  instance_path = none;
  content = some (1 ∷ []);
  size = 1;
}

abbrev output : File
output = record input {
  name = some (b'o' ∷ []);
  mode = 2;
  object_path = some (b'/' ∷ []);
  inum = 41;
}

abbrev nothing : Store
nothing = record { cells = []; next_inum = 1 }

-- A name that is added twice is found at its first place.
abbrev two_entries : Variant
two_entries =
    dict (
      entry (some (b'a' ∷ [])) (uint16_value 1)
        (entry (some (b'a' ∷ [])) (bool_value 1) no_entries))

get-two_entries : dict_get two_entries (b'a' ∷ []) ≡ some (uint16_value 1)
unfolding dict_get find_entry str_eq
get-two_entries = refl

add-init_dict :
    (dict_add_bool (dict_add_uint16 init_dict (b'a' ∷ []) 65537).1 (b'a' ∷ []) 1).1 ≡ two_entries
unfolding dict_add append_entry
add-init_dict = refl

get_bool-two_entries : dict_get_bool two_entries (b'a' ∷ []) ≡ none
unfolding dict_get_by dict_get find_entry get_bool str_eq
get_bool-two_entries = refl

-- No dictionary: nothing is added to it or found in it.
add-invalid : dict_add invalid (b'a' ∷ []) invalid ≡ (false, invalid)
unfolding dict_add
add-invalid = refl

-- The bytes of what is no byte array.
bytes-two_entries : dict_get_byte_array_buffer two_entries (b'a' ∷ []) ≡ some (some [])
unfolding dict_get_byte_array_buffer dict_get find_entry raw_bytes str_eq
bytes-two_entries = refl

at-array :
    dict_array_at (dict_array_add (dict_array_add dict_array_init init_dict).1 two_entries).1 1
    ≡ some two_entries
unfolding dict_array_at dict_array_add nth_variant append_variant
at-array = refl
