-- ===== src/Tests/Shared.antt =====
-- testbus/file.c and the files of server/container.c at small inputs.
use testbus.Base.{
  ℕ, zero, suc, ◌+◌, ◌<◌, ◌≡◌, refl, [], ◌∷◌, Option, none, some, Bool, true, false, CString, arith,
  if◌then◌else◌, ◌==◌,
}
use testbus.FileStore.{File, Store, at}
use testbus.FileArray.{FileArray, remove}
use testbus.FileArray.Refs.{Accounts, count, remove_lem, remove_first}
use testbus.FileArray.Names.{Live, IsMerge}
use testbus.Environ
use testbus.Container.{Chain, has_files, merge_files}
use testbus.Container.Files.{chain_files, merge_files_lem}

abbrev input : CString
input = b'i' ∷ b'n' ∷ []

abbrev output : CString
output = b'o' ∷ b'u' ∷ b't' ∷ []

abbrev file : ℕ → CString → ℕ → File
file n name inum = record {
  refcount = n;
  id = 0;
  object_path = none;
  name = some name;
  mode = 1;
  inum = inum;
  iseq = 0;
  instance_path = none;
  content = none;
  size = 0;
}

-- Two files at the addresses 0 and 1: the first is referred to by an array of ours and by another,
-- the second by the other alone.
abbrev store : Store
store = record { cells = some (file 2 input 1) ∷ some (file 1 output 2) ∷ []; next_inum = 3 }

abbrev ours : FileArray
ours = record { next_id = 1; files = 0 ∷ [] }

abbrev theirs : FileArray
theirs = record { next_id = 2; files = 0 ∷ 1 ∷ [] }

abbrev others : ℕ → ℕ
others a = if a == 0 then 1 else if a == 1 then 1 else 0

abbrev names : ℕ → Option CString
names a = if a == 0 then some input else some output

accounts : Accounts others (0 ∷ []) store
unfolding count
accounts = record { counted = counted; positive = positive }
  where
    counted :
        (a : ℕ)
        → (elim (at store a) as (λ x. ℕ) [ none ↦ 0 | some x ↦ x.refcount ])
          ≡ others a + count a (0 ∷ [])
    counted zero = refl
    counted (suc zero) = refl
    counted (suc (suc a)) = ground arith

    positive : (a : ℕ) (x : File) → at store a ≡ some x → 0 < x.refcount
    positive zero x e = ground arith
    positive (suc zero) x e = ground arith
    positive (suc (suc a)) x e = cc

ours_live : Live names store (0 ∷ [])
ours_live = ((file 2 input 1, refl, refl), tt)

theirs_live : Live names store (0 ∷ 1 ∷ [])
theirs_live = ((file 2 input 1, refl, refl), ((file 1 output 2, refl, refl), tt))

remove_lem_example :
    (found : Bool) × (s' : Store) × (remove ours 0 store
      ≡ some ((found, record ours { files = remove_first 0 (0 ∷ []) }), s'))
    × Accounts others (remove_first 0 (0 ∷ [])) s'
    × (found ≡ (if count 0 (0 ∷ []) == 0 then false else true))
remove_lem_example = remove_lem others ours 0 store accounts

abbrev chain : Chain
chain =
    (record { features = 0x0004; name = none; env = Environ.init; files = theirs; hosts = [] }) ∷ []

chain_live : Live names store (chain_files chain)
unfolding chain_files has_files
chain_live = theirs_live

merge_files_lem_example :
    (r : FileArray) × (s' : Store) × (merge_files chain ours store ≡ some (r, s'))
    × IsMerge others names (0 ∷ []) (chain_files chain) store r.files s'
merge_files_lem_example =
    merge_files_lem others names chain ours store accounts ours_live chain_live
