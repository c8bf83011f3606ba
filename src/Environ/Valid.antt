-- ===== src/Environ/Valid.antt =====
-- The invariant of an environment, and what setting a variable does to lookups.
use testbus.Base.{
  ◌≡◌, refl, Option, none, true, arith, CString, str_eq, if◌then◌else◌, Bool-cases, inl, inr,
}
use testbus.VarArray.{live, find}
use testbus.VarArray.Live
use testbus.VarArray.Live.{
  upsert, live-set_var, set_var-IsValid, get-set_var, live-sort, sort-IsValid,
}
use testbus.VarArray.Order.{
  Distinct, IsSorted, upsert-Distinct, find-sort_vars, sort_vars-IsSorted, IsSorted-Distinct,
}
use testbus.Environ
use testbus.Environ.{Env, setenv, unsetenv, getenv, env_sort}

pub record IsValid (e : Env) : Type 0 where
  pub bounds : Live.IsValid e.vars
  pub distinct : Distinct (live e.vars)
  pub order : e.sorted ≡ true → IsSorted (live e.vars)

-- Setting a variable, to a value or to none, keeps the environment well formed: no name twice, no
-- write outside the array, and the flag `sorted` set only on a sorted array.
pub setenv-IsValid :
    (n : CString) (value : Option CString) {e : Env} → IsValid e → IsValid (setenv e n value)
unfolding setenv
setenv-IsValid n value {e} v = record {
  bounds = set_var-IsValid n value v.bounds;
  distinct = rw (live-set_var n value v.bounds) (upsert-Distinct n value (live e.vars) v.distinct);
  order = λ h. cc;
}

-- ni_testbus_getenv after ni_testbus_setenv and ni_testbus_unsetenv on a well-formed environment:
-- the variable has the new value, or none; every other variable is as before.
pub getenv-setenv :
    (n m : CString) (value : Option CString) {e : Env}
    → IsValid e
    → (getenv (setenv e n value) m ≡ (if str_eq n m then value else getenv e m))
      × (getenv (unsetenv e n) m ≡ (if str_eq n m then none else getenv e m))
unfolding getenv setenv unsetenv
getenv-setenv n m value {e} v =
    (ground (arith, get-set_var n m value v.bounds), ground (arith, get-set_var n m none v.bounds))

pub env_sort-IsValid : {e : Env} → IsValid e → IsValid (env_sort e)
unfolding env_sort
env_sort-IsValid {e} v = elim (Bool-cases e.sorted) [
  | inl s ↦ simp (s, env_sort) v
  | inr s ↦
      rw (s, env_sort)
        (record {
          bounds = sort-IsValid v.bounds;
          distinct =
              rw (live-sort v.bounds) (IsSorted-Distinct _ (sort_vars-IsSorted _ v.distinct));
          order = λ h. rw (live-sort v.bounds) (sort_vars-IsSorted _ v.distinct);
        })
]

pub env_sort-IsSorted : {e : Env} → IsValid e → IsSorted (live (env_sort e).vars)
unfolding env_sort
env_sort-IsSorted {e} v = elim (Bool-cases e.sorted) [
  | inl s ↦ rw (s, env_sort) (v.order s)
  | inr s ↦ rw (s, env_sort) (rw (live-sort v.bounds) (sort_vars-IsSorted _ v.distinct))
]

pub find-env_sort :
    (n : CString) {e : Env} → IsValid e → find n (live (env_sort e).vars) ≡ find n (live e.vars)
unfolding env_sort
find-env_sort n {e} v = elim (Bool-cases e.sorted) [
  | inl s ↦ rw (s, env_sort) refl
  | inr s ↦ rw (s, env_sort) (rw (live-sort v.bounds) (find-sort_vars n _ v.distinct))
]

pub init-IsValid : IsValid Environ.init
init-IsValid = record {
  bounds = record { within = omega arith; room = omega arith };
  distinct = tt;
  order = λ h. tt;
}
