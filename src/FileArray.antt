-- ===== src/FileArray.antt =====
-- testbus/file.c: files that several containers share by counted references, and arrays of them.
pub mod Refs
pub mod Names
pub mod New
pub mod Serial
pub mod Transfer
pub mod Message
use testbus.Base.{
  ℕ, zero, suc, ◌+◌, ◌-◌, ◌%◌, ◌^◌, List, [], ◌∷◌, ◌++◌, Option, none, some, Bool, true, false,
  CString, string_eq, get_elem?, set, if◌then◌else◌, ◌==◌,
}
use testbus.FileStore.{
  File, Store, M, ◌>>=◌, ◌>>◌, return, load, alloc, fresh_inum, file_get, file_put,
}

-- ni_testbus_file_array_t: the references, by address, and the counter of ids.
pub record FileArray : Type 0 where
  pub next_id : ℕ
  pub files : List ℕ

-- ni_testbus_file_array_init
abbrev pub init : FileArray
init = record { next_id = 0; files = [] }

-- ni_testbus_file_array_append takes a reference.
pub append : FileArray → ℕ → M FileArray
append array file = do file_get file; return (record array { files = array.files ++ file ∷ [] })

abbrev mode_read : ℕ
mode_read = 1

-- ni_testbus_file_new: the creator's reference is dropped once the array has its own.
pub file_new : Option CString → FileArray → ℕ → M (ℕ × FileArray)
unfolding append
file_new name array mode = do
  inum ← fresh_inum
  file ← alloc (record {
    refcount = 1;
    inum = inum;
    id = array.next_id;
    mode = if mode == 0 then mode_read else mode;
    name = name;
    iseq = 0;
    object_path = none;
    instance_path = none;
    content = none;
    size = 0;
  })
  array' ← append (record array { next_id = (array.next_id + 1) % 2 ^ 32 }) file
  file_put file
  return (file, array')

-- ni_testbus_file_array_destroy
pub destroy_files : List ℕ → M (Unit {0})
destroy_files [] = return tt
destroy_files (f ∷ fs) = file_put f >> destroy_files fs

pub destroy : FileArray → M FileArray
destroy array = destroy_files array.files >> return init

-- ni_testbus_file_array_index; `none` is -1.
pub index : List ℕ → ℕ → Option ℕ
index [] file = none
index (f ∷ fs) file =
    if f == file then some 0 else elim (index fs file) [ none ↦ none | some i ↦ some (suc i) ]

-- The memmove that closes the gap at `i`.
pub delete_at : List ℕ → ℕ → List ℕ
delete_at [] i = []
delete_at (f ∷ fs) zero = fs
delete_at (f ∷ fs) (suc i) = f ∷ delete_at fs i

-- ni_testbus_file_array_remove drops the array's reference.
pub remove : FileArray → ℕ → M (Bool × FileArray)
unfolding index delete_at
remove array file = elim (index array.files file) [
  | none ↦ return (false, array)
  | some i ↦ file_put file >> return (true, record array { files = delete_at array.files i })
]

-- ni_testbus_file_array_set. `none` stands for the failed assertion `index < count` too. The new
-- file's reference is taken before the old one's is dropped.
pub set_at : FileArray → ℕ → ℕ → M FileArray
set_at array i file = elim (get_elem? array.files i) [
  | none ↦ λ s. none
  | some old ↦ do
    file_get file
    file_put old
    return (record array { files = set array.files i file })
]

-- ni_testbus_file_array_find_by_name
pub find_by_name : List ℕ → Option CString → M (Option ℕ)
find_by_name [] name = return none
find_by_name (f ∷ fs) name = do
  file ← load f
  elim (string_eq file.name name) [ true ↦ return (some f) | false ↦ find_by_name fs name ]

-- ni_testbus_file_array_find_by_inum
pub find_by_inum : List ℕ → ℕ → M (Option ℕ)
find_by_inum [] inum = return none
find_by_inum (f ∷ fs) inum = do
  file ← load f
  elim (file.inum == inum) [ true ↦ return (some f) | false ↦ find_by_inum fs inum ]

-- The loop of ni_testbus_file_array_merge over the files of `merge`.
pub merge_files : FileArray → List ℕ → M FileArray
merge_files result [] = return result
merge_files result (f ∷ fs) = do
  file ← load f
  old ← find_by_name result.files file.name
  elim old [ some g ↦ merge_files result fs | none ↦ append result f >>= λ r. merge_files r fs ]

-- ni_testbus_file_array_merge
pub merge : FileArray → FileArray → M FileArray
merge result other = merge_files result other.files
