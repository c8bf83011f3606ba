-- ===== src/Container.antt =====
-- server/container.c: the tree of containers, as a test, a command or a host sees it: what it
-- inherits from its ancestors, and what it finds there by name.
pub mod Environment
pub mod Files
use Prim.Native.Nat.{bit_and}
use testbus.Base.{
  ℕ, List, [], ◌∷◌, ◌++◌, Option, none, some, Bool, true, false, not, ◌&&◌, CString, string_eq,
  if◌then◌else◌, ◌==◌,
}
use testbus.Environ.{Env, merge, env_sort}
use testbus.Environ
use testbus.FileStore.{M, ◌>>=◌, return}
use testbus.FileArray.{FileArray, find_by_name}
use testbus.FileArray
use testbus.Host.{Host}
use testbus.Host

-- struct ni_testbus_container: what lookups and merges read of it.
pub record Container : Type 0 where
  pub features : ℕ
  pub name : Option CString
  pub env : Env
  pub files : FileArray
  pub hosts : List Host

-- A container and its ancestors, from the container up: the `parent` pointers in a row.
abbrev pub Chain : Type 0
Chain = List Container

abbrev has_env_bit : ℕ
has_env_bit = 0x0001

abbrev has_files_bit : ℕ
has_files_bit = 0x0004

abbrev has_hosts_bit : ℕ
has_hosts_bit = 0x0008

-- ni_testbus_container_has_feature
pub has_feature : Container → ℕ → Bool
has_feature c f = not (bit_and c.features f == 0)

pub has_env : Container → Bool
unfolding has_feature
has_env c = has_feature c has_env_bit

unfoldable pub has_files : Container → Bool
unfolding has_feature
has_files c = has_feature c has_files_bit

pub has_hosts : Container → Bool
unfolding has_feature
has_hosts c = has_feature c has_hosts_bit

-- The test in the loop of ni_testbus_container_merge_environment.
pub contributes : Container → Bool
contributes c = has_env c && not (c.env.vars.count == 0)

-- That loop: the environments that are appended to `env_array`.
pub collect : Chain → List Env
collect [] = []
collect (c ∷ cs) = if contributes c then c.env ∷ collect cs else collect cs

-- ni_testbus_env_merge sorts the collected environments in place.
pub sort_collected : Chain → Chain
sort_collected [] = []
sort_collected (c ∷ cs) =
    (if contributes c then record c { env = env_sort c.env } else c) ∷ sort_collected cs

-- The rest of ni_testbus_container_merge_environment, once `env_array` is filled. `none` is ni_fatal
-- in the merge.
pub merge_collected : List Env → Chain → Env → Option (Env × Chain)
merge_collected [] chain result = some (result, chain)
merge_collected (e ∷ es) chain result = elim (merge Environ.init (e ∷ es)) [
  | none ↦ none
  | some (merged, sorted) ↦ some (merged, sort_collected chain)
]

-- ni_testbus_container_merge_environment
pub merge_environment : Chain → Env → Option (Env × Chain)
unfolding contributes collect sort_collected
merge_environment chain result =
    merge_collected ((if result.vars.count == 0 then [] else result ∷ []) ++ collect chain) chain
      result

-- ni_testbus_container_merge_files
pub merge_files : Chain → FileArray → M FileArray
merge_files [] result = return result
merge_files (c ∷ cs) result =
    (if has_files c then FileArray.merge result c.files else return result) >>= λ r.
    merge_files cs r

-- Host.run: ni_testbus_process_apply_context for the command, then for the host. A container that is
-- an ancestor of both is sorted by the first merge already, which changes nothing for the second.
pub apply_environment : Chain → Chain → Env → Option Env
apply_environment command host own = elim (merge_environment command own) [
  | none ↦ none
  | some (r, command') ↦ elim (merge_environment host r) [
    | none ↦ none
    | some (r', host') ↦ some r'
  ]
]

-- ni_testbus_container_find_agent_host
pub find_agent : List Host → Option CString → Option Host
find_agent [] name = none
find_agent (h ∷ hs) name = if string_eq h.agent_bus_name name then some h else find_agent hs name

pub find_agent_host : Container → Option CString → Option Host
unfolding find_agent
find_agent_host c name = if has_hosts c then find_agent c.hosts name else none

-- ni_testbus_container_get_host_by_name
pub get_host_by_name : Chain → Option CString → Option Host
get_host_by_name [] name = none
get_host_by_name (c ∷ cs) name =
    elim (if has_hosts c then Host.find_by_name c.hosts name else none) [
      | some h ↦ some h
      | none ↦ get_host_by_name cs name
    ]

-- ni_testbus_container_get_host_by_role
pub get_host_by_role : Chain → Option CString → Option Host
get_host_by_role [] role = none
get_host_by_role (c ∷ cs) role =
    elim (if has_hosts c then Host.find_by_role c.hosts role else none) [
      | some h ↦ some h
      | none ↦ get_host_by_role cs role
    ]

-- ni_testbus_container_get_file_by_name
pub get_file_by_name : Chain → Option CString → Bool → M (Option ℕ)
get_file_by_name [] name globally = return none
get_file_by_name (c ∷ cs) name globally = do
  file ← if has_files c then find_by_name c.files.files name else return none
  elim file [
    | some f ↦ return (some f)
    | none ↦ elim globally [ true ↦ get_file_by_name cs name true | false ↦ return none ]
  ]
