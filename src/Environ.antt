-- ===== src/Environ.antt =====
-- server/environ.c: the environment of a container, and the merge of several into one.
pub mod Valid
pub mod Round
pub mod Loop
pub mod Merge
use testbus.Base.{
  ℕ, zero, suc, ◌+◌, List, [], ◌∷◌, Option, none, some, Bool, true, false, ◌&&◌, ◌||◌, not, CString,
  str_lt, if◌then◌else◌, ◌==◌, leb, map, length,
}
use testbus.VarArray.{Var, VarArray, live, get, set_var, sort}
use testbus.VarArray

-- ni_testbus_env_t
pub record Env : Type 0 where
  pub vars : VarArray
  pub sorted : Bool

-- ni_testbus_env_init
abbrev pub init : Env
init = record { vars = VarArray.init; sorted = false }

-- isalpha and isalnum of <ctype.h>, in the C locale.
pub is_alpha : ℕ → Bool
is_alpha c = (leb b'A' c && leb c b'Z') || (leb b'a' c && leb c b'z')

pub is_alnum : ℕ → Bool
is_alnum c = is_alpha c || (leb b'0' c && leb c b'9')

-- The loop of ni_testbus_env_name_valid, over the characters after the first.
pub name_rest_valid : CString → Bool
name_rest_valid [] = true
name_rest_valid (c ∷ cs) = if not (c == b'_') && not (is_alnum c) then false else name_rest_valid cs

-- ni_testbus_env_name_valid. The terminating NUL of the empty name is no letter.
pub name_valid : CString → Bool
name_valid [] = false
name_valid (c ∷ cs) = if not (c == b'_') && not (is_alpha c) then false else name_rest_valid cs

-- strncmp(s, prefix, strlen(prefix)) == 0
pub starts_with : CString → CString → Bool
starts_with [] s = true
starts_with (p ∷ ps) [] = false
starts_with (p ∷ ps) (c ∷ cs) = (p == c) && starts_with ps cs

-- "testbus_"
abbrev pub reserved_prefix : CString
reserved_prefix = b't' ∷ b'e' ∷ b's' ∷ b't' ∷ b'b' ∷ b'u' ∷ b's' ∷ b'_' ∷ []

-- ni_testbus_env_name_reserved
pub name_reserved : CString → Bool
name_reserved name = starts_with reserved_prefix name

-- ni_testbus_setenv
unfoldable pub setenv : Env → CString → Option CString → Env
setenv env name value = record { vars = set_var env.vars name value; sorted = false }

-- ni_testbus_unsetenv keeps the variable, with the value NULL.
unfoldable pub unsetenv : Env → CString → Env
unsetenv env name = record { vars = set_var env.vars name none; sorted = false }

-- ni_testbus_getenv
pub getenv : Env → CString → Option CString
getenv env name = elim (get env.vars name) [ none ↦ none | some v ↦ v.value ]

-- __ni_testbus_env_sort
pub env_sort : Env → Env
env_sort env = if env.sorted then env else record { vars = sort env.vars; sorted = true }

-- struct env_merge_input: the variables of `array` from `next` on.
abbrev pub Input : Type 0
Input = List Var

-- __ni_testbus_env_merge_skip_dups. `none` is ni_fatal.
pub skip_dups : CString → Input → Option Input
skip_dups name [] = some []
skip_dups name (v ∷ vs) =
    if str_lt v.name name
    then none
    else if str_lt name v.name
    then some (v ∷ vs)
    else skip_dups name vs

-- __ni_testbus_env_merge_next
pub merge_next : Input → Option Var → Option Var
merge_next [] best = best
merge_next (v ∷ vs) none = some v
merge_next (v ∷ vs) (some best) = if str_lt v.name best.name then some v else some best

-- `if (last) skip_dups(m, last->name)`
pub skip : Option CString → Input → Option Input
skip none m = some m
skip (some l) m = skip_dups l m

-- The inner `for` loop: each input is moved past `last`, and the best next variable is kept.
pub round : Option CString → List Input → Option Var → Option (List Input × Option Var)
round last [] var = some ([], var)
round last (m ∷ ms) var = elim (skip last m) [
  | none ↦ none
  | some m' ↦ elim (round last ms (merge_next m' var)) [
    | none ↦ none
    | some (ms', best) ↦ some (m' ∷ ms', best)
  ]
]

-- The `while (TRUE)` loop, on fuel. `none` is ni_fatal, or no fuel.
pub merge_loop : ℕ → Option CString → List Input → Env → Option Env
merge_loop zero last ms result = none
merge_loop (suc fuel) last ms result = elim (round last ms none) [
  | none ↦ none
  | some (ms', none) ↦ some result
  | some (ms', some var) ↦ merge_loop fuel (some var.name) ms' (setenv result var.name var.value)
]

-- How many variables the inputs hold: each round but the first uses up one at least.
pub total : List Input → ℕ
total [] = 0
total (m ∷ ms) = length m + total ms

-- The sorted variables of each environment.
abbrev pub inputs : List Env → List Input
inputs = map (λ e. live e.vars)

-- ni_testbus_env_merge. It sorts the given environments in place, so they are returned too.
pub merge : Env → List Env → Option (Env × List Env)
unfolding total
merge result envs =
    let sorted = map env_sort envs in
    elim (merge_loop (2 + total (inputs sorted)) none (inputs sorted) result) [
      | none ↦ none
      | some r ↦ some (record r { sorted = true }, sorted)
    ]
