-- ===== src/Environ/Round.antt =====
-- One round of ni_testbus_env_merge: which variable it picks, and where it leaves the inputs.
use testbus.Base.{
  ◌≤◌, ◌<◌, ◌≡◌, refl, List, [], ◌∷◌, Option, none, some, false, arith, CString, str_eq, str_lt,
  str_eq_iff, str_eq_refl, str_lt_trans, str_lt_asym, str_lt_total, str_lt_ne, str_lt_ne',
  if◌then◌else◌, Bool-cases, inl, inr, ◌≢◌, All,
}
use testbus.VarArray.{Var, find}
use testbus.VarArray.Order.{Above, IsSorted, Above-IsSorted, find-Above}
use testbus.Environ.{Input, skip_dups, skip, merge_next, round, total}

-- The variable of that name in the first input that has one.
unfoldable pub first : CString → List Input → Option Var
first n [] = none
first n (m ∷ ms) = elim (find n m) [ none ↦ first n ms | some v ↦ some v ]

-- An input with no name below `l`, in sorted order.
abbrev pub From : CString → Input → Type 0
From l [] = Unit {0}
From l (v ∷ vs) = (str_lt v.name l ≡ false) × Above v.name vs

-- What an input is before a round, and after it was moved past `last`.
abbrev pub IsReady : Option CString → Input → Type 0
IsReady none m = IsSorted m
IsReady (some l) m = From l m

abbrev pub IsBeyond : Option CString → Input → Type 0
IsBeyond none m = IsSorted m
IsBeyond (some l) m = Above l m

pub drop_head : CString → Input → Input
drop_head l [] = []
drop_head l (v ∷ vs) = if str_eq l v.name then vs else v ∷ vs

unfoldable pub past : Option CString → Input → Input
past none m = m
past (some l) m = drop_head l m

unfoldable pub pasts : Option CString → List Input → List Input
pasts last [] = []
pasts last (m ∷ ms) = past last m ∷ pasts last ms

unfoldable pub best_of : List Input → Option Var → Option Var
best_of [] var = var
best_of (m ∷ ms) var = best_of ms (merge_next m var)

skip_dups-Above : (l : CString) (vs : Input) → Above l vs → skip_dups l vs ≡ some vs
unfolding skip_dups
skip_dups-Above l [] a = refl
skip_dups-Above l (v ∷ vs) a = ground (arith, a, str_lt_asym l v.name)

skip-past : (last : Option CString) (m : Input) → IsReady last m → skip last m ≡ some (past last m)
unfolding skip past drop_head skip_dups
skip-past none m r = refl
skip-past (some l) [] r = refl
skip-past (some l) (v ∷ vs) r = elim (Bool-cases (str_eq l v.name)) [
  | inl e ↦ ground (arith, r, str_eq_iff l v.name, str_lt_ne l v.name, skip_dups-Above l vs)
  | inr e ↦ ground (arith, r, str_lt_total v.name l, str_lt_ne' v.name l, str_lt_total l v.name)
]

past-IsBeyond : (last : Option CString) (m : Input) → IsReady last m → IsBeyond last (past last m)
unfolding past drop_head
past-IsBeyond none m r = r
past-IsBeyond (some l) [] r = tt
past-IsBeyond (some l) (v ∷ vs) r = elim (Bool-cases (str_eq l v.name)) [
  | inl e ↦ ground (arith, r, str_eq_iff l v.name)
  | inr e ↦ ground (arith, r, str_lt_total v.name l, str_lt_ne' v.name l, str_lt_total l v.name)
]

pub pasts-IsBeyond :
    (last : Option CString) (ms : List Input)
    → All (IsReady last) ms
    → All (IsBeyond last) (pasts last ms)
unfolding pasts
pasts-IsBeyond last [] r = tt
pasts-IsBeyond last (m ∷ ms) r = (past-IsBeyond last m r.0, pasts-IsBeyond last ms r.1)

-- No input ever holds a variable that the merge has missed, so a round does not end in ni_fatal.
pub round_lem :
    (last : Option CString) (ms : List Input) (var : Option Var)
    → All (IsReady last) ms
    → round last ms var ≡ some (pasts last ms, best_of (pasts last ms) var)
unfolding round pasts best_of
round_lem last [] var r = refl
round_lem last (m ∷ ms) var r =
    rw (skip-past last m r.0, round)
      (rw (round_lem last ms (merge_next (past last m) var) r.1, round) refl)

abbrev NotBelow : CString → Option Var → Type 0
NotBelow l none = Unit {0}
NotBelow l (some w) = str_lt w.name l ≡ false

Beyond-IsSorted : (last : Option CString) (m : Input) → IsBeyond last m → IsSorted m
Beyond-IsSorted none m b = b
Beyond-IsSorted (some l) m b = Above-IsSorted l m b

pub All-IsSorted :
    (last : Option CString) (ms : List Input) → All (IsBeyond last) ms → All IsSorted ms
All-IsSorted last [] b = tt
All-IsSorted last (m ∷ ms) b = (Beyond-IsSorted last m b.0, All-IsSorted last ms b.1)

-- The variable that a round picks has the least name of all that are left,
pub best-least :
    (ms : List Input) (var : Option Var) (b : Var)
    → All IsSorted ms
    → best_of ms var ≡ some b
    → NotBelow b.name var × All (From b.name) ms
unfolding best_of merge_next
best-least [] none b s h = cc
best-least [] (some w) b s h = (ground (arith, h, str_lt_asym b.name b.name), tt)
best-least ([] ∷ ms) var b s h = let r = best-least ms var b s.1 h in (r.0, (tt, r.1))
best-least ((v ∷ vs) ∷ ms) none b s h =
    let r = best-least ms (some v) b s.1 h in (tt, ((r.0, s.0), r.1))
best-least ((v ∷ vs) ∷ ms) (some w) b s h =
    let r = best-least ms (if str_lt v.name w.name then some v else some w) b s.1 h in
    elim (Bool-cases (str_lt v.name w.name)) [
      | inl e ↦
          ground (arith, s, r, str_lt_trans v.name w.name b.name, Bool-cases (str_lt w.name b.name))
      | inr e ↦ ground (
        arith,
        s,
        r,
        str_lt_trans w.name v.name b.name,
        str_lt_total v.name w.name,
        str_eq_iff v.name w.name,
        Bool-cases (str_eq v.name w.name),
        Bool-cases (str_lt v.name b.name),
      )
    ]

first_from : Option Var → CString → List Input → Option Var
first_from none n ms = first n ms
first_from (some w) n ms = if str_eq w.name n then some w else first n ms

find_From :
    (n : CString) (v : Var) (vs : Input)
    → Above v.name vs
    → str_lt v.name n ≡ false
    → find n vs ≡ none
find_From n v vs a h = find-Above v.name n vs a h

-- and stands in the first of the inputs that hold that name.
best-first_from :
    (ms : List Input) (var : Option Var) (b : Var)
    → All IsSorted ms
    → best_of ms var ≡ some b
    → first_from var b.name ms ≡ some b
unfolding best_of merge_next first_from first find
best-first_from [] none b s h = cc
best-first_from [] (some w) b s h = ground (arith, h, str_eq_refl b.name)
best-first_from ([] ∷ ms) none b s h = best-first_from ms none b s.1 h
best-first_from ([] ∷ ms) (some w) b s h = best-first_from ms (some w) b s.1 h
best-first_from ((v ∷ vs) ∷ ms) none b s h =
    let r = best-least ((v ∷ vs) ∷ ms) none b s h in
    ground (arith, r, best-first_from ms (some v) b s.1 h, find_From b.name v vs s.0 r.1.0.0)
best-first_from ((v ∷ vs) ∷ ms) (some w) b s h =
    let r = best-least ((v ∷ vs) ∷ ms) (some w) b s h in
    elim (Bool-cases (str_lt v.name w.name)) [
      | inl e ↦ ground (
        arith,
        r,
        best-first_from ms (some v) b s.1 (ground (arith, h)),
        find_From b.name v vs s.0 r.1.0.0,
        str_eq_iff w.name b.name,
      )
      | inr e ↦ ground (
        arith,
        r,
        best-first_from ms (some w) b s.1 (ground (arith, h)),
        find_From b.name v vs s.0 r.1.0.0,
        str_eq_iff v.name b.name,
        str_eq_iff w.name b.name,
        str_lt_total v.name w.name,
        Bool-cases (str_eq v.name w.name),
        str_eq_iff v.name w.name,
      )
    ]

pub best-first :
    (ms : List Input) (b : Var)
    → All IsSorted ms
    → best_of ms none ≡ some b
    → first b.name ms ≡ some b
unfolding first_from
best-first ms b s h = best-first_from ms none b s h

best-ne-none : (ms : List Input) (v : Var) → best_of ms (some v) ≢ none
unfolding best_of merge_next
best-ne-none [] v h = cc
best-ne-none ([] ∷ ms) v h = best-ne-none ms v h
best-ne-none ((w ∷ ws) ∷ ms) v h = elim (Bool-cases (str_lt w.name v.name)) [
  | inl e ↦ best-ne-none ms w (rw e at h)
  | inr e ↦ best-ne-none ms v (rw e at h)
]

-- Nothing is picked only when nothing is left.
pub best-none : (ms : List Input) (n : CString) → best_of ms none ≡ none → first n ms ≡ none
unfolding best_of merge_next first find
best-none [] n h = refl
best-none ([] ∷ ms) n h = best-none ms n h
best-none ((v ∷ vs) ∷ ms) n h = absurd (best-ne-none ms v h)

-- Moving the inputs past a name loses no variable of another name,
pub first-pasts :
    (l n : CString) (ms : List Input)
    → str_eq l n ≡ false
    → first n (pasts (some l) ms) ≡ first n ms
unfolding first pasts past drop_head find
first-pasts l n [] h = refl
first-pasts l n ([] ∷ ms) h = first-pasts l n ms h
first-pasts l n ((v ∷ vs) ∷ ms) h =
    ground (arith, first-pasts l n ms, str_eq_iff l v.name, str_eq_iff v.name n, str_eq_iff l n)

total-pasts-le : (l : CString) (ms : List Input) → total (pasts (some l) ms) ≤ total ms
unfolding total pasts past drop_head
total-pasts-le l [] = omega arith
total-pasts-le l ([] ∷ ms) = omega (arith, total-pasts-le l ms)
total-pasts-le l ((v ∷ vs) ∷ ms) = ground (arith, total-pasts-le l ms)

-- and makes progress if one of them had it.
pub total-pasts-lt :
    (l : CString) (ms : List Input) (b : Var)
    → All (From l) ms
    → first l ms ≡ some b
    → total (pasts (some l) ms) < total ms
unfolding total pasts past drop_head first find
total-pasts-lt l [] b f h = cc
total-pasts-lt l ([] ∷ ms) b f h = omega (arith, total-pasts-lt l ms b f.1 h)
total-pasts-lt l ((v ∷ vs) ∷ ms) b f h = ground (
  arith,
  total-pasts-le l ms,
  total-pasts-lt l ms b f.1,
  find_From l v vs f.0.1 f.0.0,
  str_eq_iff v.name l,
  str_eq_iff l v.name,
)
