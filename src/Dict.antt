-- ===== src/Dict.antt =====
-- dborb/dbus-common.c, ni_dbus_dict_*: the dictionaries in which data is sent over D-Bus.
use testbus.Base.{
  ℕ, zero, suc, ◌%◌, ◌^◌, List, [], Option, none, some, Bool, true, false, CString, str_eq,
  if◌then◌else◌,
}

-- ni_dbus_variant_t with the types that dictionaries of the test bus hold; the list of an array is its
-- memory up to `array.len`. A dictionary is an array of struct ni_dbus_dict_entry, whose keys may be
-- NULL; `dict_array` is an array with the signature of dictionaries as its element_signature.
mutual
  pub data Variant : Type 0 where
    invalid : Variant
    string_value : Option CString → Variant
    object_path : Option CString → Variant
    bool_value : ℕ → Variant
    uint16_value : ℕ → Variant
    uint32_value : ℕ → Variant
    uint64_value : ℕ → Variant
    byte_array : List ℕ → Variant
    dict : Entries → Variant
    dict_array : Variants → Variant

  pub data Entries : Type 0 where
    no_entries : Entries
    entry : Option CString → Variant → Entries → Entries

  pub data Variants : Type 0 where
    no_variants : Variants
    variant : Variant → Variants → Variants

-- ni_dbus_variant_init_dict
abbrev pub init_dict : Variant
init_dict = dict no_entries

-- ni_dbus_dict_array_init
abbrev pub dict_array_init : Variant
dict_array_init = dict_array no_variants

-- ni_dbus_variant_is_dict
unfoldable pub is_dict : Variant → Bool
is_dict (dict es) = true
is_dict _ = false

unfoldable pub dict_is_empty : Variant → Bool
dict_is_empty (dict no_entries) = true
dict_is_empty _ = false

unfoldable pub append_entry : Entries → Option CString → Variant → Entries
append_entry no_entries key datum = entry key datum no_entries
append_entry (entry k d es) key datum = entry k d (append_entry es key datum)

-- ni_dbus_dict_add. What the caller writes through the pointer that it gets is `datum`; `false` is
-- NULL, when there is nothing to write to.
unfoldable pub dict_add : Variant → CString → Variant → Bool × Variant
unfolding append_entry
dict_add (dict es) key datum = (true, dict (append_entry es (some key) datum))
dict_add var key datum = (false, var)

-- ni_dbus_dict_add_string and its kin.
abbrev pub dict_add_string : Variant → CString → Option CString → Bool × Variant
dict_add_string var key value = dict_add var key (string_value value)

abbrev pub dict_add_object_path : Variant → CString → Option CString → Bool × Variant
dict_add_object_path var key value = dict_add var key (object_path value)

abbrev pub dict_add_bool : Variant → CString → ℕ → Bool × Variant
dict_add_bool var key value = dict_add var key (bool_value (value % 2 ^ 32))

abbrev pub dict_add_uint16 : Variant → CString → ℕ → Bool × Variant
dict_add_uint16 var key value = dict_add var key (uint16_value (value % 2 ^ 16))

abbrev pub dict_add_uint32 : Variant → CString → ℕ → Bool × Variant
dict_add_uint32 var key value = dict_add var key (uint32_value (value % 2 ^ 32))

abbrev pub dict_add_uint64 : Variant → CString → ℕ → Bool × Variant
dict_add_uint64 var key value = dict_add var key (uint64_value (value % 2 ^ 64))

abbrev pub dict_add_byte_array : Variant → CString → List ℕ → Bool × Variant
dict_add_byte_array var key bytes = dict_add var key (byte_array bytes)

-- The loop of ni_dbus_dict_get.
unfoldable pub find_entry : Entries → CString → Option Variant
find_entry no_entries key = none
find_entry (entry none d es) key = find_entry es key
find_entry (entry (some k) d es) key =
    let rest = find_entry es key in if str_eq k key then some d else rest

-- ni_dbus_dict_get
unfoldable pub dict_get : Variant → CString → Option Variant
unfolding find_entry
dict_get (dict es) key = find_entry es key
dict_get _ key = none

-- ni_dbus_variant_get_string and its kin; `none` is FALSE.
unfoldable pub get_string : Variant → Option (Option CString)
get_string (string_value s) = some s
get_string _ = none

unfoldable pub get_object_path : Variant → Option (Option CString)
get_object_path (object_path s) = some s
get_object_path _ = none

unfoldable pub get_bool : Variant → Option ℕ
get_bool (bool_value n) = some n
get_bool _ = none

unfoldable pub get_uint16 : Variant → Option ℕ
get_uint16 (uint16_value n) = some n
get_uint16 _ = none

unfoldable pub get_uint32 : Variant → Option ℕ
get_uint32 (uint32_value n) = some n
get_uint32 _ = none

unfoldable pub get_uint64 : Variant → Option ℕ
get_uint64 (uint64_value n) = some n
get_uint64 _ = none

-- The accessors of dictionaries, ni_dbus_dict_get_string and its kin, with the type's accessor `get`.
unfoldable pub dict_get_by : {A : Type 0} → (Variant → Option A) → Variant → CString → Option A
unfolding dict_get
dict_get_by get var key = elim (dict_get var key) [ none ↦ none | some v ↦ get v ]

abbrev pub dict_get_string : Variant → CString → Option (Option CString)
dict_get_string = dict_get_by get_string

abbrev pub dict_get_object_path : Variant → CString → Option (Option CString)
dict_get_object_path = dict_get_by get_object_path

abbrev pub dict_get_bool : Variant → CString → Option ℕ
dict_get_bool = dict_get_by get_bool

abbrev pub dict_get_uint16 : Variant → CString → Option ℕ
dict_get_uint16 = dict_get_by get_uint16

abbrev pub dict_get_uint32 : Variant → CString → Option ℕ
dict_get_uint32 = dict_get_by get_uint32

abbrev pub dict_get_uint64 : Variant → CString → Option ℕ
dict_get_uint64 = dict_get_by get_uint64

-- What ni_dbus_dict_get_byte_array_buffer copies: it does not look at the type. A scalar has no
-- elements; of an array of other elements the bytes of pointers are copied, which are `none`.
unfoldable pub raw_bytes : Variant → Option (List ℕ)
raw_bytes (byte_array bytes) = some bytes
raw_bytes (dict (entry k d es)) = none
raw_bytes (dict_array (variant v vs)) = none
raw_bytes _ = some []

-- ni_dbus_dict_get_byte_array_buffer; the outer `none` is NULL.
unfoldable pub dict_get_byte_array_buffer : Variant → CString → Option (Option (List ℕ))
unfolding dict_get raw_bytes
dict_get_byte_array_buffer var key = elim (dict_get var key) [
  | none ↦ none
  | some v ↦ some (raw_bytes v)
]

unfoldable pub append_variant : Variants → Variant → Variants
append_variant no_variants v = variant v no_variants
append_variant (variant x vs) v = variant x (append_variant vs v)

-- ni_dbus_dict_array_add. The caller fills the new dictionary: `datum` is what it makes of init_dict.
unfoldable pub dict_array_add : Variant → Variant → Bool × Variant
unfolding append_variant
dict_array_add (dict_array vs) datum = (true, dict_array (append_variant vs datum))
dict_array_add var datum = (false, var)

unfoldable pub nth_variant : Variants → ℕ → Option Variant
nth_variant no_variants i = none
nth_variant (variant v vs) zero = some v
nth_variant (variant v vs) (suc i) = nth_variant vs i

-- ni_dbus_dict_array_at
unfoldable pub dict_array_at : Variant → ℕ → Option Variant
unfolding nth_variant
dict_array_at (dict_array vs) i = nth_variant vs i
dict_array_at _ i = none

-- `var->array.len`
unfoldable pub array_len : Variants → ℕ
array_len no_variants = 0
array_len (variant v vs) = suc (array_len vs)
