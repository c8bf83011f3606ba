-- ===== src/Environ/Loop.antt =====
-- The loop of ni_testbus_env_merge: the fuel suffices, and each pick moves one variable over.
use testbus.Base.{
  ℕ, zero, suc, ◌<◌, ◌≡◌, refl, sym, subst, ◌∙◌, List, [], ◌∷◌, ◌++◌, Option, none, some, true,
  false, arith, CString, str_eq, str_lt, str_eq_iff, str_lt_trans, str_lt_asym, str_lt_total,
  str_lt_ne, if◌then◌else◌, Bool-cases, Option-cases, inl, inr, All,
}
use testbus.VarArray.{Var, live, find}
use testbus.VarArray.Live.{upsert, live-set_var}
use testbus.VarArray.Order.{Above, IsSorted, find-Above}
use testbus.Environ.{Env, Input, setenv, merge_loop, total}
use testbus.Environ.Valid.{IsValid, setenv-IsValid}
use testbus.Environ.Round.{
  first, IsReady, IsBeyond, pasts, best_of, pasts-IsBeyond, round_lem, All-IsSorted, best-least,
  best-first, best-none, first-pasts, total-pasts-lt,
}

-- `o`, or else `p`.
abbrev pub or_else {ℓ} : {A : Type ℓ} → Option A → Option A → Option A
or_else none p = p
or_else (some v) p = some v

-- The variables merged so far: in order, and none past `last`.
abbrev pub UpTo : CString → List Var → Type 0
UpTo l = All (λ v. str_lt l v.name ≡ false)

abbrev pub IsDone : Option CString → List Var → Type 0
IsDone none vs = vs ≡ []
IsDone (some l) vs = UpTo l vs × IsSorted vs

UpTo-IsBelow :
    (l m : CString) (vs : List Var)
    → str_lt l m ≡ true
    → UpTo l vs
    → All (λ v. str_lt v.name m ≡ true) vs
UpTo-IsBelow l m [] h u = tt
UpTo-IsBelow l m (v ∷ vs) h u = (
  ground (
    arith,
    u,
    Bool-cases (str_eq l v.name),
    str_eq_iff l v.name,
    str_lt_total l v.name,
    str_lt_trans v.name l m,
  ),
  UpTo-IsBelow l m vs h u.1,
)

find-IsBelow :
    (m : CString) (vs : List Var) → All (λ v. str_lt v.name m ≡ true) vs → find m vs ≡ none
unfolding find
find-IsBelow m [] b = refl
find-IsBelow m (v ∷ vs) b = ground (arith, b, str_lt_ne v.name m, find-IsBelow m vs b.1)

upsert-IsBelow :
    (b : Var) (vs : List Var)
    → All (λ v. str_lt v.name b.name ≡ true) vs
    → upsert b.name b.value vs ≡ vs ++ b ∷ []
unfolding upsert
upsert-IsBelow b [] h = refl
upsert-IsBelow b (v ∷ vs) h = ground (arith, h, str_lt_ne v.name b.name, upsert-IsBelow b vs h.1)

UpTo-append :
    (b : Var) (vs : List Var)
    → All (λ v. str_lt v.name b.name ≡ true) vs
    → UpTo b.name (vs ++ b ∷ [])
UpTo-append b [] h = (
  elim (Bool-cases (str_lt b.name b.name)) [
    | inl e ↦ ground (arith, str_lt_asym b.name b.name)
    | inr e ↦ e
  ],
  tt,
)
UpTo-append b (v ∷ vs) h = (ground (arith, h, str_lt_asym v.name b.name), UpTo-append b vs h.1)

Above-append :
    (l : CString) (b : Var) (vs : List Var)
    → Above l vs
    → str_lt l b.name ≡ true
    → All (λ v. str_lt v.name b.name ≡ true) vs
    → Above l (vs ++ b ∷ [])
Above-append l b [] a k h = (k, tt)
Above-append l b (v ∷ vs) a k h = (a.0, Above-append v.name b vs a.1 h.0 h.1)

IsSorted-append :
    (b : Var) (vs : List Var)
    → IsSorted vs
    → All (λ v. str_lt v.name b.name ≡ true) vs
    → IsSorted (vs ++ b ∷ [])
IsSorted-append b [] s h = tt
IsSorted-append b (v ∷ vs) s h = Above-append v.name b vs s h.0 h.1

find-append :
    (n : CString) (b : Var) (vs : List Var)
    → find n (vs ++ b ∷ []) ≡ or_else (find n vs) (if str_eq b.name n then some b else none)
unfolding find
find-append n b [] = ground arith
find-append n b (v ∷ vs) = ground (arith, find-append n b vs)

first-Above :
    (l n : CString) (ms : List Input) → All (Above l) ms → str_lt l n ≡ false → first n ms ≡ none
unfolding first
first-Above l n [] a h = refl
first-Above l n (m ∷ ms) a h = ground (arith, find-Above l n m a.0 h, first-Above l n ms a.1 h)

-- Everything merged so far comes before the pick.
done-IsBelow :
    (last : Option CString) (ms : List Input) (b : Var) (vs : List Var)
    → All (IsBeyond last) ms
    → best_of ms none ≡ some b
    → IsDone last vs
    → All (λ v. str_lt v.name b.name ≡ true) vs
done-IsBelow none ms b vs h k d = subst (All (λ v. str_lt v.name b.name ≡ true)) (sym d) tt
done-IsBelow (some l) ms b vs h k d = UpTo-IsBelow l b.name vs above d.0
  where
    above : str_lt l b.name ≡ true
    above = elim (Bool-cases (str_lt l b.name)) [
      | inl e ↦ e
      | inr e ↦ cc (first-Above l b.name ms h e, best-first ms b (All-IsSorted (some l) ms h) k)
    ]

done-IsSorted : (last : Option CString) (vs : List Var) → IsDone last vs → IsSorted vs
done-IsSorted none vs d = subst IsSorted (sym d) tt
done-IsSorted (some l) vs d = d.1

-- What the loop makes of the variables `vs` merged so far and the inputs that are left.
pub record Merged (vs : List Var) (ms : List Input) (r : Env) : Type 0 where
  pub valid : IsValid r
  pub order : IsSorted (live r.vars)
  pub lookup : (n : CString) → find n (live r.vars) ≡ or_else (find n vs) (first n ms)

or_else-none {ℓ} : {A : Type ℓ} (o : Option A) → or_else o none ≡ o
or_else-none none = refl
or_else-none (some a) = refl

live-setenv :
    (b : Var) (result : Env)
    → IsValid result
    → All (λ v. str_lt v.name b.name ≡ true) (live result.vars)
    → live (setenv result b.name b.value).vars ≡ live result.vars ++ b ∷ []
unfolding setenv
live-setenv b result v h =
    live-set_var b.name b.value v.bounds ∙ upsert-IsBelow b (live result.vars) h

-- The pick goes from the inputs to the result, and no lookup changes.
lookup-step :
    (n : CString) (b : Var) (vs : List Var) (ms : List Input)
    → first b.name ms ≡ some b
    → find b.name vs ≡ none
    → or_else (find n (vs ++ b ∷ [])) (first n (pasts (some b.name) ms))
      ≡ or_else (find n vs) (first n ms)
lookup-step n b vs ms h f = elim (Bool-cases (str_eq b.name n)) [
  | inl e ↦ ground (arith, find-append n b vs, str_eq_iff b.name n, h, f)
  | inr e ↦ ground (arith, find-append n b vs, first-pasts b.name n ms e)
]

pub merge_loop_lem :
    (fuel : ℕ) (last : Option CString) (ms : List Input) (result : Env)
    → total (pasts last ms) < fuel
    → All (IsReady last) ms
    → IsValid result
    → IsDone last (live result.vars)
    → (r : Env) × (merge_loop fuel last ms result ≡ some r)
      × Merged (live result.vars) (pasts last ms) r
unfolding merge_loop
merge_loop_lem zero last ms result f h v d = absurd (omega arith)
merge_loop_lem (suc fuel) last ms result f h v d =
    elim (Option-cases (best_of (pasts last ms) none)) [
      | inl e ↦ (
        result,
        rw (round_lem last ms none h, merge_loop) (rw (e, merge_loop) refl),
        record {
          valid = v;
          order = done-IsSorted last (live result.vars) d;
          lookup = λ n. rw (best-none (pasts last ms) n e) (sym (or_else-none _));
        },
      )
      | inr (b, e) ↦
          let beyond : All (IsBeyond last) (pasts last ms) = pasts-IsBeyond last ms h in
          let sorted : All IsSorted (pasts last ms) = All-IsSorted last (pasts last ms) beyond in
          let least = best-least (pasts last ms) none b sorted e in
          let head = best-first (pasts last ms) b sorted e in
          let below = done-IsBelow last (pasts last ms) b (live result.vars) beyond e d in
          let append : live (setenv result b.name b.value).vars ≡ live result.vars ++ b ∷ [] =
            live-setenv b result v below in
          let (r, run, m) =
            merge_loop_lem fuel (some b.name) (pasts last ms) (setenv result b.name b.value)
              (omega (arith, total-pasts-lt b.name (pasts last ms) b least.1 head)) least.1
              (setenv-IsValid b.name b.value v)
              (rw append (
                UpTo-append b (live result.vars) below,
                IsSorted-append b (live result.vars) (done-IsSorted last (live result.vars) d)
                    below,
              )) in
          (
            r,
            rw (round_lem last ms none h, merge_loop) (rw (e, merge_loop) run),
            record {
              valid = m.valid;
              order = m.order;
              lookup = λ n.
                  m.lookup n
                  ∙ rw append (
                      lookup-step n b (live result.vars) (pasts last ms) head
                        (find-IsBelow b.name (live result.vars) below));
            },
          )
    ]
