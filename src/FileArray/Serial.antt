-- ===== src/FileArray/Serial.antt =====
-- testbus/file.c: how files are sent from the master to an agent, without their content.
use testbus.Base.{ℕ, List, [], ◌∷◌, Option, none, some, CString}
use testbus.Dict.{
  no_variants, variant, dict, entry, byte_array, Variant, Variants, init_dict, dict_array_init,
  dict_add_string, dict_add_uint32, dict_get_string, dict_get_uint32, dict_array_add, dict_get_by,
  get_string, get_uint32, dict_add, dict_array,
}
use testbus.FileStore.{File, M, ◌>>=◌, ◌>>◌, return, load, write}
use testbus.FileArray.{FileArray, init, file_new, destroy}

abbrev name_key : CString
name_key = b'n' ∷ b'a' ∷ b'm' ∷ b'e' ∷ []

abbrev inum_key : CString
inum_key = b'i' ∷ b'n' ∷ b'u' ∷ b'm' ∷ []

abbrev iseq_key : CString
iseq_key = b'i' ∷ b's' ∷ b'e' ∷ b'q' ∷ []

abbrev mode_key : CString
mode_key = b'm' ∷ b'o' ∷ b'd' ∷ b'e' ∷ []

abbrev path_key : CString
path_key = b'o' ∷ b'b' ∷ b'j' ∷ b'e' ∷ b'c' ∷ b't' ∷ b'-' ∷ b'p' ∷ b'a' ∷ b't' ∷ b'h' ∷ []

-- ni_testbus_file_serialize
unfoldable pub serialize : File → Variant
unfolding dict_add
serialize file =
    let d1 = (dict_add_string init_dict name_key file.name).1 in
    let d2 = (dict_add_uint32 d1 inum_key file.inum).1 in
    let d3 = (dict_add_uint32 d2 iseq_key file.iseq).1 in
    let d4 = (dict_add_uint32 d3 mode_key file.mode).1 in
    elim file.object_path [ none ↦ d4 | some path ↦ (dict_add_string d4 path_key (some path)).1 ]

-- What ni_testbus_file_deserialize reads.
pub record Fields : Type 0 where
  pub name : Option CString
  pub inum : ℕ
  pub iseq : ℕ
  pub mode : ℕ
  pub path : Option (Option CString)

-- `none` where it returns NULL.
unfoldable pub read_fields : Variant → Option Fields
unfolding dict_get_by get_string get_uint32
read_fields var = elim (dict_get_string var name_key) [
  | none ↦ none
  | some name ↦ elim (dict_get_uint32 var inum_key) [
    | none ↦ none
    | some inum ↦ elim (dict_get_uint32 var iseq_key) [
      | none ↦ none
      | some iseq ↦ elim (dict_get_uint32 var mode_key) [
        | none ↦ none
        | some mode ↦ some (record {
          name = name;
          inum = inum;
          iseq = iseq;
          mode = mode;
          path = dict_get_string var path_key;
        })
      ]
    ]
  ]
]

-- ni_string_dup of the path, if the dictionary has one.
abbrev pub with_fields : Fields → File → File
with_fields x file = record file {
  inum = x.inum;
  iseq = x.iseq;
  object_path = elim x.path [ none ↦ file.object_path | some path ↦ path ];
}

-- ni_testbus_file_deserialize: a new file of the array; the inner `none` is NULL.
unfoldable pub deserialize : Variant → FileArray → M (Option ℕ × FileArray)
unfolding file_new load write
deserialize var array = elim (read_fields var) [
  | none ↦ return (none, array)
  | some x ↦ do
    made ← file_new x.name array x.mode
    file ← load made.0
    write made.0 (some (with_fields x file))
    return (some made.0, made.1)
]

-- ni_testbus_file_array_serialize, of the array's files.
unfoldable pub serialize_files : Variant → List File → Variant
unfolding dict_array_add serialize
serialize_files dicts [] = dicts
serialize_files dicts (f ∷ fs) = serialize_files (dict_array_add dicts (serialize f)).1 fs

abbrev pub array_serialize : List File → Variant
array_serialize fs = serialize_files dict_array_init fs

-- The loop of ni_testbus_file_array_deserialize over the dictionaries; `none` where it fails, after
-- the array has been freed.
unfoldable pub deserialize_files : Variants → FileArray → M (Option FileArray)
unfolding deserialize destroy
deserialize_files no_variants array = return (some array)
deserialize_files (variant var vars) array = do
  made ← deserialize var array
  elim made.0 [
    | none ↦ destroy made.1 >>= λ _. return none
    | some file ↦ deserialize_files vars made.1
  ]

-- ni_testbus_file_array_deserialize. What is no array of dictionaries, but has elements, fails at the
-- first; `array.len` is 0 for what is no array.
unfoldable pub array_deserialize : Variant → M (Option FileArray)
unfolding deserialize_files
array_deserialize (dict_array dicts) = deserialize_files dicts init
array_deserialize (dict (entry k d es)) = return none
array_deserialize (byte_array (b ∷ bs)) = return none
array_deserialize _ = return (some init)
