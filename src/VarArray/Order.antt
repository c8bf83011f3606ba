-- ===== src/VarArray/Order.antt =====
-- ni_var_array_sort: what the sorted order means, and that sorting changes no lookup.
use testbus.Base.{
  ◌≡◌, refl, List, [], ◌∷◌, Option, none, some, true, false, arith, CString, str_eq, str_lt,
  str_eq_iff, str_eq_refl, str_lt_trans, str_lt_asym, str_lt_total, if◌then◌else◌, Bool-cases, inl,
  inr,
}
use testbus.VarArray.{Var, find, insert_var, sort_vars}
use testbus.VarArray.Live.{upsert, find-upsert}

-- Strictly rising names, all above `l`.
abbrev pub Above : CString → List Var → Type 0
Above l [] = Unit {0}
Above l (v ∷ vs) = (str_lt l v.name ≡ true) × Above v.name vs

abbrev pub IsSorted : List Var → Type 0
IsSorted [] = Unit {0}
IsSorted (v ∷ vs) = Above v.name vs

-- No two variables have the same name.
abbrev pub Distinct : List Var → Type 0
Distinct [] = Unit {0}
Distinct (v ∷ vs) = (find v.name vs ≡ none) × Distinct vs

pub Above-mono : (l m : CString) (vs : List Var) → str_lt l m ≡ true → Above m vs → Above l vs
Above-mono l m [] h a = tt
Above-mono l m (v ∷ vs) h a = (str_lt_trans l m v.name h a.0, a.1)

pub Above-IsSorted : (l : CString) (vs : List Var) → Above l vs → IsSorted vs
Above-IsSorted l [] a = tt
Above-IsSorted l (v ∷ vs) a = a.1

-- A name that is not above the bound is not there.
pub find-Above :
    (l n : CString) (vs : List Var) → Above l vs → str_lt l n ≡ false → find n vs ≡ none
unfolding find
find-Above l n [] a h = refl
find-Above l n (v ∷ vs) a h = elim (Bool-cases (str_eq v.name n)) [
  | inl e ↦ ground (arith, str_eq_iff v.name n)
  | inr e ↦ rw e (
      find-Above v.name n vs a.1 (elim (Bool-cases (str_lt v.name n)) [
        | inl f ↦ ground (arith, str_lt_trans l v.name n)
        | inr f ↦ f
      ]))
]

pub find-Above_self : (l : CString) (vs : List Var) → Above l vs → find l vs ≡ none
find-Above_self l vs a =
    find-Above l l vs a
      (elim (Bool-cases (str_lt l l)) [ inl e ↦ ground (arith, str_lt_asym l l) | inr e ↦ e ])

find-insert_var :
    (n : CString) (v : Var) (vs : List Var)
    → find v.name vs ≡ none
    → find n (insert_var v vs) ≡ (if str_eq v.name n then some v else find n vs)
unfolding find insert_var
find-insert_var n v [] h = refl
find-insert_var n v (w ∷ ws) h =
    ground (arith, find-insert_var n v ws, str_eq_iff w.name n, str_eq_iff v.name n, str_eq_refl n)

pub find-sort_vars : (n : CString) (vs : List Var) → Distinct vs → find n (sort_vars vs) ≡ find n vs
unfolding find sort_vars
find-sort_vars n [] d = refl
find-sort_vars n (v ∷ vs) d = ground (
  arith,
  find-insert_var n v (sort_vars vs),
  find-sort_vars n vs d.1,
  find-sort_vars v.name vs d.1,
)

insert_var-Above :
    (l : CString) (v : Var) (vs : List Var)
    → str_lt l v.name ≡ true
    → find v.name vs ≡ none
    → Above l vs
    → Above l (insert_var v vs)
unfolding find insert_var
insert_var-Above l v [] h f a = (h, tt)
insert_var-Above l v (w ∷ ws) h f a =
    ground (arith, insert_var-Above w.name v ws, str_lt_total w.name v.name)

insert_var-IsSorted :
    (v : Var) (vs : List Var) → find v.name vs ≡ none → IsSorted vs → IsSorted (insert_var v vs)
unfolding find insert_var
insert_var-IsSorted v [] f s = tt
insert_var-IsSorted v (w ∷ ws) f s =
    ground (arith, insert_var-Above w.name v ws, str_lt_total w.name v.name)

-- Sorting variables of distinct names puts the names in strictly rising order.
pub sort_vars-IsSorted : (vs : List Var) → Distinct vs → IsSorted (sort_vars vs)
unfolding sort_vars
sort_vars-IsSorted [] d = tt
sort_vars-IsSorted (v ∷ vs) d =
    insert_var-IsSorted v (sort_vars vs) (ground (arith, find-sort_vars v.name vs d.1))
      (sort_vars-IsSorted vs d.1)

-- Setting a variable makes no second entry of any name.
pub upsert-Distinct :
    (n : CString) (value : Option CString) (vs : List Var)
    → Distinct vs
    → Distinct (upsert n value vs)
unfolding find upsert
upsert-Distinct n value [] d = (refl, tt)
upsert-Distinct n value (v ∷ vs) d = ground (
  arith,
  d,
  upsert-Distinct n value vs,
  find-upsert n v.name value vs,
  str_eq_iff v.name n,
  str_eq_iff n v.name,
)

pub IsSorted-Distinct : (vs : List Var) → IsSorted vs → Distinct vs
IsSorted-Distinct [] s = tt
IsSorted-Distinct (v ∷ vs) s =
    (find-Above_self v.name vs s, IsSorted-Distinct vs (Above-IsSorted v.name vs s))
