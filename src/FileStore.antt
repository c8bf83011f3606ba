-- ===== src/FileStore.antt =====
-- The heap of ni_testbus_file_t, and ni_testbus_file_get and ni_testbus_file_put.
pub mod Laws
use testbus.Base.{
  ℕ, zero, suc, ◌+◌, ◌-◌, ◌%◌, ◌^◌, List, [], ◌∷◌, ◌++◌, Option, none, some, CString, get_elem?,
  set, length, if◌then◌else◌, ◌==◌, ltb, true, false,
}

-- struct ni_testbus_file. The magic number is what tells a live file from a freed one: here a freed
-- file is an empty cell of the store.
pub record File : Type 0 where
  pub refcount : ℕ
  pub id : ℕ
  pub object_path : Option CString
  pub name : Option CString
  pub mode : ℕ
  pub inum : ℕ
  pub iseq : ℕ
  pub instance_path : Option CString
  pub content : Option (List ℕ)
  pub size : ℕ

-- The heap by address, and the counter __global_file_inum.
pub record Store : Type 0 where
  pub cells : List (Option File)
  pub next_inum : ℕ

-- `none` is a failed assertion or an access to a freed file.
abbrev pub M : Type 0 → Type 0
M A = Store → Option (A × Store)

infixl 5 ◌>>=◌ ◌>>◌
abbrev pub ◌>>=◌ : {A B : Type 0} → M A → (A → M B) → M B
◌>>=◌ m f s = elim (m s) [ none ↦ none | some (a, s') ↦ f a s' ]

abbrev pub ◌>>◌ : {B : Type 0} → M (Unit {0}) → M B → M B
m >> k = m >>= λ _. k

abbrev pub return : {A : Type 0} → A → M A
return a s = some (a, s)

-- The live file at an address.
abbrev pub at : Store → ℕ → Option File
at s f = elim (get_elem? s.cells f) [ none ↦ none | some c ↦ c ]

unfoldable pub load : ℕ → M File
load f s = elim (at s f) [ none ↦ none | some file ↦ some (file, s) ]

unfoldable pub alloc : File → M ℕ
alloc file s = some (length s.cells, record s { cells = s.cells ++ some file ∷ [] })

unfoldable pub fresh_inum : M ℕ
fresh_inum s = some (s.next_inum, record s { next_inum = (s.next_inum + 1) % 2 ^ 32 })

unfoldable pub write : ℕ → Option File → M (Unit {0})
write f c s = some (tt, record s { cells = set s.cells f c })

-- ni_testbus_file_get
unfoldable pub file_get : ℕ → M (Unit {0})
unfolding load write
file_get f = do
  file ← load f
  elim (ltb 0 file.refcount) [
    | true ↦ write f (some (record file { refcount = suc file.refcount }))
    | false ↦ λ s. none
  ]

-- ni_testbus_file_put, with ni_testbus_file_free for the last reference.
unfoldable pub file_put : ℕ → M (Unit {0})
unfolding load write
file_put f = do
  file ← load f
  elim (ltb 0 file.refcount) [
    | true ↦
        if file.refcount - 1 == 0
        then write f none
        else write f (some (record file { refcount = file.refcount - 1 }))
    | false ↦ λ s. none
  ]
