-- ===== src/Container/Environment.antt =====
-- The environment that a process inherits.
use testbus.Base.{
  ◌≡◌, refl, ◌∙◌, List, [], ◌∷◌, ◌++◌, none, some, arith, CString, All, if◌then◌else◌, ◌==◌, ==_iff,
  Bool-cases, Option-cases, inl, inr,
}
use testbus.VarArray.{VarArray, get, find}
use testbus.Environ.{Env, merge, env_sort, getenv}
use testbus.Environ
use testbus.Environ.Valid.{IsValid, init-IsValid, env_sort-IsValid, find-env_sort}
use testbus.Environ.Merge.{resolve, merge_lem}
use testbus.Container.{
  Chain, has_env, contributes, collect, sort_collected, merge_environment, merge_collected,
  apply_environment,
}

-- The environments of a container and its ancestors, of those that have one.
pub envs : Chain → List Env
envs [] = []
envs (c ∷ cs) = if has_env c then c.env ∷ envs cs else envs cs

abbrev pub ChainValid : Chain → Type 0
ChainValid = All (λ c. IsValid c.env)

get_empty : (n : CString) (a : VarArray) → a.count ≡ 0 → get a n ≡ none
unfolding get find
get_empty n a h = rw h refl

resolve-append :
    (n : CString) (xs ys : List Env)
    → resolve n (xs ++ ys) ≡ elim (resolve n xs) [ none ↦ resolve n ys | some v ↦ some v ]
unfolding resolve
resolve-append n [] ys = refl
resolve-append n (x ∷ xs) ys = ground (arith, resolve-append n xs ys)

-- Leaving out the empty environments changes no answer.
resolve-collect : (n : CString) (cs : Chain) → resolve n (collect cs) ≡ resolve n (envs cs)
unfolding resolve collect envs contributes
resolve-collect n [] = refl
resolve-collect n (c ∷ cs) =
    ground (arith, resolve-collect n cs, get_empty n c.env.vars, ==_iff c.env.vars.count 0)

collect-IsValid : (cs : Chain) → ChainValid cs → All IsValid (collect cs)
unfolding collect
collect-IsValid [] v = tt
collect-IsValid (c ∷ cs) v = ground (arith, v, collect-IsValid cs v.1)

-- The environments that are merged into `result`.
abbrev merged_envs : Chain → Env → List Env
merged_envs chain result = (if result.vars.count == 0 then [] else result ∷ []) ++ collect chain

resolve-merged_envs :
    (n : CString) (chain : Chain) (result : Env)
    → resolve n (merged_envs chain result) ≡ resolve n (result ∷ envs chain)
unfolding resolve
resolve-merged_envs n chain result =
    ground (arith, resolve-collect n chain, get_empty n result.vars, ==_iff result.vars.count 0)

merged_envs-IsValid :
    (chain : Chain) (result : Env)
    → IsValid result
    → ChainValid chain
    → All IsValid (merged_envs chain result)
merged_envs-IsValid chain result v w = elim (Bool-cases (result.vars.count == 0)) [
  | inl e ↦ ground (arith, e, collect-IsValid chain w)
  | inr e ↦ ground (arith, e, v, collect-IsValid chain w)
]

-- What ni_testbus_container_merge_environment leaves in `result`, and of the chain.
pub record Inherits (chain : Chain) (result : Env) (out : Env × Chain) : Type 0 where
  pub valid : IsValid out.0
  pub lookup : (n : CString) → get out.0.vars n ≡ resolve n (result ∷ envs chain)
  pub chain_valid : ChainValid out.1
  pub chain_lookup : (n : CString) → resolve n (envs out.1) ≡ resolve n (envs chain)

sort_collected-valid : (cs : Chain) → ChainValid cs → ChainValid (sort_collected cs)
unfolding sort_collected
sort_collected-valid [] v = tt
sort_collected-valid (c ∷ cs) v =
    ground (arith, v, env_sort-IsValid v.0, sort_collected-valid cs v.1)

resolve-sort_collected :
    (n : CString) (cs : Chain)
    → ChainValid cs
    → resolve n (envs (sort_collected cs)) ≡ resolve n (envs cs)
unfolding sort_collected resolve envs has_env get
resolve-sort_collected n [] v = refl
resolve-sort_collected n (c ∷ cs) v =
    ground (arith, find-env_sort n v.0, resolve-sort_collected n cs v.1)

merge_collected_lem :
    (es : List Env) (chain : Chain) (result : Env)
    → IsValid result
    → ChainValid chain
    → All IsValid es
    → ((n : CString) → resolve n es ≡ resolve n (result ∷ envs chain))
    → ((n : CString)
        → resolve n [] ≡ resolve n es
        → get result.vars n ≡ resolve n (result ∷ envs chain))
    → (out : Env × Chain) × (merge_collected es chain result ≡ some out) × Inherits chain result out
unfolding merge_collected
merge_collected_lem [] chain result v w u same empty = (
  (result, chain),
  refl,
  record { valid = v; lookup = λ n. empty n refl; chain_valid = w; chain_lookup = λ n. refl },
)
merge_collected_lem (e ∷ es) chain result v w u same empty =
    let (out, run, m) = merge_lem Environ.init (e ∷ es) init-IsValid refl u in
    (
      (out.0, sort_collected chain),
      ground (arith, run),
      record {
        valid = m.valid;
        lookup = λ n. m.lookup n ∙ same n;
        chain_valid = sort_collected-valid chain w;
        chain_lookup = λ n. resolve-sort_collected n chain w;
      },
    )

nothing_there :
    (n : CString) (chain : Chain) (result : Env)
    → resolve n [] ≡ resolve n (merged_envs chain result)
    → get result.vars n ≡ resolve n (result ∷ envs chain)
unfolding resolve
nothing_there n chain result h = ground (
  arith,
  h,
  resolve-collect n chain,
  get_empty n result.vars,
  ==_iff result.vars.count 0,
  Option-cases (get result.vars n),
)

-- Merging the environments of a container and its ancestors, all well formed, always succeeds. The
-- result has each variable as it stood in it, and the others from the nearest container that has one
-- of that name; the containers answer as before.
pub merge_environment_lem :
    (chain : Chain) (result : Env)
    → IsValid result
    → ChainValid chain
    → (out : Env × Chain) × (merge_environment chain result ≡ some out) × Inherits chain result out
unfolding merge_environment
merge_environment_lem chain result v w =
    merge_collected_lem (merged_envs chain result) chain result v w
      (merged_envs-IsValid chain result v w) (λ n. resolve-merged_envs n chain result)
      (λ n. nothing_there n chain result)

-- With well-formed environments, the merge for a process that Host.run starts succeeds. The process
-- has its own variables, then those of the command and its ancestors, then those of the host and its
-- ancestors: the first of these that has an entry decides.
pub apply_environment_lem :
    (command host : Chain) (own : Env)
    → IsValid own
    → ChainValid command
    → ChainValid host
    → (r : Env) × (apply_environment command host own ≡ some r)
      × IsValid r
      × ((n : CString) → get r.vars n ≡ resolve n (own ∷ (envs command ++ envs host)))
unfolding apply_environment resolve
apply_environment_lem command host own v w u =
    let (o1, run1, i1) = merge_environment_lem command own v w in
    let (o2, run2, i2) = merge_environment_lem host o1.0 i1.valid u in
    (
      o2.0,
      ground (arith, run1, run2),
      i2.valid,
      λ n. ground (arith, i2.lookup n, i1.lookup n, resolve-append n (envs command) (envs host)),
    )
