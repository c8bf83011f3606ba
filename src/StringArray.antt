-- ===== src/StringArray.antt =====
-- ni_string_array_t of dborb/util.c: arrays of strings that end with a NULL pointer.
pub mod Memory
pub mod Shift
pub mod Edit
pub mod Match
pub mod Comm
use testbus.Base.{
  ℕ, zero, suc, ◌+◌, ◌-◌, ◌%◌, List, [], ◌∷◌, ◌++◌, Option, none, some, Bool, true, false, not,
  is_none, ◌&&◌, CString, str_eq, if◌then◌else◌, ◌==◌, ltb, leb, get_elem?, get_or, set, take, drop,
  replicate, length,
}

-- A pointer to a string, or NULL.
abbrev pub Cell : Type 0
Cell = Option CString

-- ni_string_array_t; `cells` is `data`.
pub record StringArray : Type 0 where
  pub count : ℕ
  pub cells : List Cell

abbrev pub chunk : ℕ
chunk = 16

-- ni_string_array_init, and what ni_string_array_destroy leaves.
abbrev pub init : StringArray
init = record { count = 0; cells = [] }

abbrev pub destroy : StringArray → StringArray
destroy a = init

-- ni_string_array_move: the new `dst`, and the new `src`.
abbrev pub move : StringArray → StringArray → StringArray × StringArray
move dst src = (src, init)

-- xrealloc keeps what fits of the old cells.
unfoldable pub resize : ℕ → List Cell → List Cell
resize n cells = take n (cells ++ replicate n none)

-- __ni_string_array_realloc: the cells from `count` on are cleared.
unfoldable pub realloc : StringArray → ℕ → StringArray
unfolding resize
realloc a newsize =
    let size = newsize + chunk + 1 in
    record a { cells = take a.count (resize size a.cells) ++ drop a.count (replicate size none) }

unfoldable pub make_room : StringArray → StringArray
unfolding realloc
make_room a = if a.count % chunk == 0 then realloc a a.count else a

-- __ni_string_array_append. ni_string_array_append passes it a copy of the string, NULL for NULL.
unfoldable pub append : StringArray → Cell → StringArray
unfolding make_room
append a str =
    let r = make_room a in record { count = suc r.count; cells = set r.cells r.count str }

-- ni_string_array_copy
unfoldable pub append_all : StringArray → List Cell → StringArray
unfolding append
append_all dst [] = dst
append_all dst (c ∷ cs) = append_all (append dst c) cs

unfoldable pub copy : StringArray → StringArray → StringArray
unfolding append_all
copy dst src = append_all (destroy dst) (take src.count src.cells)

-- memmove(&data[dst], &data[src], n * sizeof(char *))
unfoldable pub memmove : ℕ → ℕ → ℕ → List Cell → List Cell
memmove dst src n cells = take dst cells ++ take n (drop src cells) ++ drop n (drop dst cells)

-- __ni_string_array_insert, to which ni_string_array_insert passes a copy of the string: first once
-- there is room.
unfoldable pub insert_in : StringArray → ℕ → Cell → StringArray
unfolding memmove
insert_in r pos str =
    if leb r.count pos
    then record { count = suc r.count; cells = set r.cells r.count str }
    else record {
      count = suc r.count;
      cells = set (memmove (pos + 1) pos (r.count - pos) r.cells) pos str;
    }

unfoldable pub insert : StringArray → ℕ → Cell → StringArray
unfolding make_room insert_in
insert a pos str = insert_in (make_room a) pos str

-- ni_string_array_set; the flag is false for -1, which a NULL string gives too, once it is stored.
unfoldable pub set_at : StringArray → ℕ → Cell → Bool × StringArray
set_at a pos str =
    if leb a.count pos
    then (false, a)
    else (not (is_none str), record a { cells = set a.cells pos str })

-- ni_string_array_at; ni_string_array_get copies the same string.
unfoldable pub at : StringArray → ℕ → Cell
at a pos = if leb a.count pos then none else get_or a.cells pos none

-- ni_string_array_remove_index; the flag is false for -1.
unfoldable pub remove_index : StringArray → ℕ → Bool × StringArray
unfolding memmove
remove_index a pos = if leb a.count pos then (false, a) else (
  true,
  record { count = a.count - 1; cells = memmove pos (pos + 1) (a.count - pos) a.cells },
)

-- `!strcmp(cell, str)`, for a cell that is not NULL.
unfoldable pub matches : Cell → CString → Bool
matches none str = false
matches (some x) str = str_eq x str

-- ni_string_array_index, on an array with no NULL among its strings; `none` is -1.
unfoldable pub index_in : List Cell → CString → Option ℕ
unfolding matches
index_in [] str = none
index_in (c ∷ cs) str =
    let rest = index_in cs str in
    if matches c str then some 0 else elim rest [ none ↦ none | some i ↦ some (suc i) ]

unfoldable pub index : StringArray → CString → Option ℕ
unfolding index_in
index a str = index_in (take a.count a.cells) str

-- The loop of ni_string_array_remove_match, over the remaining cells from `i` on: how many it kept
-- and killed, and the array's memory.
unfoldable pub kill : CString → ℕ → ℕ → ℕ → ℕ → ℕ → List Cell → ℕ × ℕ × List Cell
unfolding matches
kill str maxkill zero i j killed cells = (j, killed, cells)
kill str maxkill (suc n) i j killed cells =
    elim (ltb killed maxkill && matches (get_or cells i none) str) [
      | true ↦ kill str maxkill n (i + 1) j (killed + 1) cells
      | false ↦ kill str maxkill n (i + 1) (j + 1) killed (set cells j (get_or cells i none))
    ]

-- The memset that ends it.
unfoldable pub finish : ℕ × ℕ × List Cell → ℕ × StringArray
finish (j, killed, cells) = (
  killed,
  record { count = j; cells = take j cells ++ replicate killed none ++ drop (j + killed) cells },
)

-- ni_string_array_remove_match, on an array with no NULL among its strings.
unfoldable pub remove_match : StringArray → CString → ℕ → ℕ × StringArray
unfolding kill finish
remove_match a str maxkill =
    finish (kill str (if maxkill == 0 then a.count else maxkill) a.count 0 0 0 a.cells)

-- The inner loop of ni_string_array_comm: the first string of `b` that equals `val_a` is cleared.
unfoldable pub clear_match : CString → List Cell → Option (List Cell)
unfolding matches
clear_match val_a [] = none
clear_match val_a (c ∷ cs) =
    let rest = clear_match val_a cs in
    if matches c val_a
    then some (none ∷ cs)
    else elim rest [ none ↦ none | some ds ↦ some (c ∷ ds) ]

pub record Sorted : Type 0 where
  pub uniq_a : StringArray
  pub uniq_b : StringArray
  pub common : StringArray

-- The outer loop, over the copies of `a` and `b`, and the loop over what is left of `b`.
unfoldable pub comm_b : List Cell → Sorted → Sorted
unfolding append
comm_b [] out = out
comm_b (none ∷ cs) out = comm_b cs out
comm_b (some x ∷ cs) out = comm_b cs (record out { uniq_b = append out.uniq_b (some x) })

unfoldable pub comm_a : List Cell → List Cell → Sorted → Sorted
unfolding clear_match comm_b append
comm_a [] b out = comm_b b out
comm_a (none ∷ cs) b out = comm_a cs b out
comm_a (some x ∷ cs) b out = elim (clear_match x b) [
  | some b' ↦ comm_a cs b' (record out { common = append out.common (some x) })
  | none ↦ comm_a cs b (record out { uniq_a = append out.uniq_a (some x) })
]

-- ni_string_array_comm, on the arrays that it adds its results to.
unfoldable pub comm : StringArray → StringArray → Sorted → Sorted
unfolding comm_a
comm a b out = comm_a (take a.count a.cells) (take b.count b.cells) out

-- The inner loop of ni_string_array_is_uniq, whose `val_b` is `data[i]` like `val_a`.
unfoldable pub is_uniq_at : Cell → List Cell → Bool
unfolding matches
is_uniq_at none js = true
is_uniq_at (some val_a) [] = true
is_uniq_at (some val_a) (c ∷ cs) =
    let rest = is_uniq_at (some val_a) cs in if matches (some val_a) val_a then false else rest

unfoldable pub is_uniq_from : List Cell → Bool
unfolding is_uniq_at
is_uniq_from [] = true
is_uniq_from (c ∷ cs) = is_uniq_at c cs && is_uniq_from cs

-- ni_string_array_is_uniq
unfoldable pub is_uniq : StringArray → Bool
unfolding is_uniq_from
is_uniq a = is_uniq_from (take a.count a.cells)
