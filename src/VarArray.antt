-- ===== src/VarArray.antt =====
-- ni_var_array_t of dborb/util.c: the table of named variables behind every environment.
pub mod Live
pub mod Order
use Prim.Native.Nat.{Ordering}
use testbus.Base.{
  ℕ, suc, ◌+◌, ◌%◌, List, [], ◌∷◌, ◌++◌, Option, none, some, Bool, true, false, CString, str_eq,
  str_lt, if◌then◌else◌, ◌==◌, take, drop, replicate, set, length, map,
}

-- struct ni_variable. The NULL name of a cell that was never filled is read as the empty string;
-- no operation looks at such a cell. A value may be NULL.
pub record Var : Type 0 where
  pub name : CString
  pub value : Option CString

-- struct ni_var_array: the allocated cells, the first `count` of which are in use.
pub record VarArray : Type 0 where
  pub count : ℕ
  pub cells : List Var

abbrev pub chunk : ℕ
chunk = 16

abbrev pub unset : Var
unset = record { name = []; value = none }

-- The cells in use, which every loop `for (i = 0; i < nva->count; ++i)` runs over.
abbrev pub live : VarArray → List Var
live a = take a.count a.cells

-- ni_var_array_init, and what ni_var_array_destroy leaves.
abbrev pub init : VarArray
init = record { count = 0; cells = [] }

abbrev pub destroy : VarArray → VarArray
destroy a = init

-- The loop of ni_var_array_get: the first variable of that name.
unfoldable pub find : CString → List Var → Option Var
find n [] = none
find n (v ∷ vs) = if str_eq v.name n then some v else find n vs

-- The index at which that loop stops.
pub index_of : CString → List Var → Option ℕ
index_of n [] = none
index_of n (v ∷ vs) =
    if str_eq v.name n then some 0 else elim (index_of n vs) [ none ↦ none | some i ↦ some (suc i) ]

-- ni_var_array_get
unfoldable pub get : VarArray → CString → Option Var
get a n = find n (live a)

-- xrealloc keeps what fits of the old cells.
resize : ℕ → List Var → List Var
resize n cells = take n (cells ++ replicate n unset)

-- __ni_var_array_realloc: the cells from `count` on are cleared.
pub realloc : VarArray → ℕ → VarArray
unfolding resize
realloc a newsize =
    let size = newsize + chunk in
    record a { cells = take a.count (resize size a.cells) ++ drop a.count (replicate size unset) }

-- The branch of ni_var_array_set that makes room for a new variable.
pub make_room : VarArray → VarArray
make_room a = if a.count % chunk == 0 then realloc a a.count else a

-- ni_var_array_set. The new variable's value is NULL until the last line sets it.
pub set_var : VarArray → CString → Option CString → VarArray
set_var a n value = elim (index_of n (live a)) [
  | some i ↦ record a { cells = set a.cells i (record { name = n; value = value }) }
  | none ↦
      let r = make_room a in
      record {
        count = suc r.count;
        cells = set r.cells r.count (record { name = n; value = value });
      }
]

-- ni_var_array_copy. The loop fills the new cells, and no line sets `dst->count`.
pub copy : VarArray → VarArray → VarArray
copy dst src =
    let r = realloc (destroy dst) src.count in
    record r { cells = live src ++ drop src.count r.cells }

-- qsort by __ni_var_comp. The variables' names differ, so the order of equal ones does not matter.
pub insert_var : Var → List Var → List Var
insert_var v [] = v ∷ []
insert_var v (w ∷ ws) = if str_lt w.name v.name then w ∷ insert_var v ws else v ∷ w ∷ ws

pub sort_vars : List Var → List Var
sort_vars [] = []
sort_vars (v ∷ vs) = insert_var v (sort_vars vs)

-- ni_var_array_sort
pub sort : VarArray → VarArray
sort a = record a { cells = sort_vars (live a) ++ drop a.count a.cells }
