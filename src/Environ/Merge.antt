-- ===== src/Environ/Merge.antt =====
-- ni_testbus_env_merge: it ends, no variable is missed, and the first environment wins.
use testbus.Base.{
  ◌+◌, ◌≡◌, refl, ap, List, [], ◌∷◌, Option, none, some, true, arith, CString, All, map,
}
use testbus.VarArray.{Var, live, find, get}
use testbus.VarArray.Order.{IsSorted}
use testbus.Environ.{Env, Input, getenv, env_sort, merge, total, inputs}
use testbus.Environ.Valid.{IsValid, env_sort-IsSorted, find-env_sort}
use testbus.Environ.Round.{first, IsReady, past, pasts}
use testbus.Environ.Loop.{Merged, merge_loop_lem}

-- The entry of a name in the first of the environments that has one. An entry with the value NULL,
-- left by ni_testbus_unsetenv, hides the later environments too.
unfoldable pub resolve : CString → List Env → Option Var
resolve n [] = none
resolve n (e ∷ es) = elim (get e.vars n) [ none ↦ resolve n es | some v ↦ some v ]

pasts-none : (ms : List Input) → pasts none ms ≡ ms
unfolding pasts past
pasts-none [] = refl
pasts-none (m ∷ ms) = ap (◌∷◌ m) (pasts-none ms)

inputs-IsReady :
    (envs : List Env) → All IsValid envs → All (IsReady none) (inputs (map env_sort envs))
inputs-IsReady [] v = tt
inputs-IsReady (e ∷ es) v = (env_sort-IsSorted v.0, inputs-IsReady es v.1)

first-inputs :
    (n : CString) (envs : List Env)
    → All IsValid envs
    → first n (inputs (map env_sort envs)) ≡ resolve n envs
unfolding first resolve get
first-inputs n [] v = refl
first-inputs n (e ∷ es) v = ground (arith, find-env_sort n v.0, first-inputs n es v.1)

getenv-env_sort : (n : CString) {e : Env} → IsValid e → getenv (env_sort e) n ≡ getenv e n
unfolding getenv get
getenv-env_sort n v = rw (find-env_sort n v, getenv) refl

same_answers :
    (n : CString) (envs : List Env)
    → All IsValid envs
    → map (λ e. getenv e n) (map env_sort envs) ≡ map (λ e. getenv e n) envs
same_answers n [] v = refl
same_answers n (e ∷ es) v = cc (getenv-env_sort n v.0, same_answers n es v.1)

-- What ni_testbus_env_merge promises of its result and of the environments that it was given.
pub record IsMergeOf (envs : List Env) (out : Env × List Env) : Type 0 where
  pub valid : IsValid out.0
  pub flag : out.0.sorted ≡ true
  pub order : IsSorted (live out.0.vars)
  pub lookup : (n : CString) → get out.0.vars n ≡ resolve n envs
  pub inputs_same : (n : CString) → map (λ e. getenv e n) out.1 ≡ map (λ e. getenv e n) envs

-- Merging well-formed environments into an empty one always succeeds: the loop ends and never
-- reports a missed variable. The result is well formed, sorted and marked so, and each name has in
-- it the entry of the first environment that has one of that name. The environments given are
-- sorted in place, and answer every lookup as before.
pub merge_lem :
    (result : Env) (envs : List Env)
    → IsValid result
    → live result.vars ≡ []
    → All IsValid envs
    → (out : Env × List Env) × (merge result envs ≡ some out) × IsMergeOf envs out
unfolding merge getenv get find first
merge_lem result envs v empty vs =
    let ms = inputs (map env_sort envs) in
    let (r, run, m) =
      merge_loop_lem (2 + total ms) none ms result (rw pasts-none (omega arith))
        (inputs-IsReady envs vs) v empty in
    (
      (record r { sorted = true }, map env_sort envs),
      rw (run, merge) refl,
      record {
        valid = record {
          bounds = m.valid.bounds;
          distinct = m.valid.distinct;
          order = λ _. m.order;
        };
        flag = refl;
        order = m.order;
        lookup = λ n. lookup n r m;
        inputs_same = λ n. same_answers n envs vs;
      },
    )
  where
    lookup :
        (n : CString) (r : Env)
        → Merged (live result.vars) (pasts none (inputs (map env_sort envs))) r
        → find n (live r.vars) ≡ resolve n envs
    lookup n r m = rw (m.lookup n, empty, pasts-none) (first-inputs n envs vs)
