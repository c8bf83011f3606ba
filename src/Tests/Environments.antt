-- ===== src/Tests/Environments.antt =====
-- server/environ.c and the environments of server/container.c at small inputs.
use testbus.Base.{◌≡◌, refl, List, [], ◌∷◌, ◌++◌, none, some, CString}
use testbus.VarArray.{get}
use testbus.Environ.{Env, setenv, unsetenv, getenv, merge, name_valid, name_reserved}
use testbus.Environ
use testbus.Environ.Valid.{IsValid, setenv-IsValid, init-IsValid}
use testbus.Environ.Merge.{resolve, IsMergeOf, merge_lem}
use testbus.Container.{Chain, merge_environment, apply_environment}
use testbus.Container.Environment.{Inherits, envs, merge_environment_lem, apply_environment_lem}

abbrev path : CString
path = b'P' ∷ b'A' ∷ b'T' ∷ b'H' ∷ []

abbrev home : CString
home = b'H' ∷ b'O' ∷ b'M' ∷ b'E' ∷ []

abbrev root : CString
root = b'/' ∷ []

abbrev bin : CString
bin = b'/' ∷ b'b' ∷ b'i' ∷ b'n' ∷ []

-- PATH is set and HOME is unset in the one, HOME is set in the other.
abbrev command_env : Env
command_env = unsetenv (setenv Environ.init path (some bin)) home

abbrev host_env : Env
host_env = setenv (setenv Environ.init path (some root)) home (some root)

command_env-IsValid : IsValid command_env
command_env-IsValid =
    unfold unsetenv setenv in setenv-IsValid home none (setenv-IsValid path (some bin) init-IsValid)

host_env-IsValid : IsValid host_env
host_env-IsValid = setenv-IsValid home (some root) (setenv-IsValid path (some root) init-IsValid)

abbrev command_chain : Chain
command_chain =
    (record {
      features = 0x0005;
      name = none;
      env = command_env;
      files = record { next_id = 0; files = [] };
      hosts = [];
    })
    ∷ []

abbrev host_chain : Chain
host_chain =
    (record {
      features = 0x0067;
      name = some home;
      env = host_env;
      files = record { next_id = 0; files = [] };
      hosts = [];
    })
    ∷ []

merge_lem_example :
    (out : Env × List Env) × (merge Environ.init (command_env ∷ host_env ∷ []) ≡ some out)
    × IsMergeOf (command_env ∷ host_env ∷ []) out
merge_lem_example =
    merge_lem Environ.init (command_env ∷ host_env ∷ []) init-IsValid refl
      (command_env-IsValid, (host_env-IsValid, tt))

merge_environment_lem_example :
    (out : Env × Chain) × (merge_environment host_chain command_env ≡ some out)
    × Inherits host_chain command_env out
merge_environment_lem_example =
    merge_environment_lem host_chain command_env command_env-IsValid (host_env-IsValid, tt)

apply_environment_lem_example :
    (r : Env) × (apply_environment command_chain host_chain Environ.init ≡ some r)
    × IsValid r
    × ((n : CString)
        → get r.vars n ≡ resolve n (Environ.init ∷ (envs command_chain ++ envs host_chain)))
apply_environment_lem_example =
    apply_environment_lem command_chain host_chain Environ.init init-IsValid
      (command_env-IsValid, tt) (host_env-IsValid, tt)
