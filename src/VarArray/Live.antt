-- ===== src/VarArray/Live.antt =====
-- A variable array seen as the list of its variables: memory bounds, and what lookups find.
use testbus.Base.{
  ℕ, zero, suc, ◌+◌, ◌-◌, ◌%◌, ◌≤◌, ◌≡◌, refl, ap, ◌∙◌, sym, List, [], ◌∷◌, ◌++◌, Option, none,
  some, arith, CString, str_eq, str_eq_iff, if◌then◌else◌, take, drop, replicate, set, length,
  length-append, length-take, length-drop, length-replicate, length-set, Bool-cases, inl, inr, ◌==◌,
  Option-cases, take-length-append,
}
use testbus.VarArray.{
  Var, VarArray, chunk, unset, live, find, index_of, get, resize, realloc, make_room, set_var, copy,
  sort, sort_vars, insert_var,
}

-- The list that a `set` of a variable turns `vs` into: its value replaced, or appended.
unfoldable pub upsert : CString → Option CString → List Var → List Var
upsert n value [] = record { name = n; value = value } ∷ []
upsert n value (v ∷ vs) =
    if str_eq v.name n then record { name = n; value = value } ∷ vs else v ∷ upsert n value vs

-- The cells in use lie inside the allocation, and room is left up to the next multiple of the chunk.
pub record IsValid (a : VarArray) : Type 0 where
  pub within : a.count ≤ length a.cells
  pub room : a.count + (chunk - a.count % chunk) % chunk ≤ length a.cells

length-realloc :
    (a : VarArray) (n : ℕ) → a.count ≤ n + chunk → length (realloc a n).cells ≡ n + chunk
unfolding realloc resize
length-realloc a n h = omega (
  arith,
  length-append (take a.count (resize (n + chunk) a.cells))
      (drop a.count (replicate (n + chunk) unset)),
  length-take a.count (resize (n + chunk) a.cells),
  length-take (n + chunk) (a.cells ++ replicate (n + chunk) unset),
  length-append a.cells (replicate (n + chunk) unset),
  length-drop a.count (replicate (n + chunk) unset),
  length-replicate (n + chunk) unset,
)

take-take-append :
    (n m : ℕ) (xs ys zs : List Var)
    → n ≤ m
    → n ≤ length xs
    → take n (take n (take m (xs ++ ys)) ++ zs) ≡ take n xs
take-take-append zero m xs ys zs h k = refl
take-take-append (suc n) zero xs ys zs h k = absurd (omega arith)
take-take-append (suc n) (suc m) [] ys zs h k = absurd (omega arith)
take-take-append (suc n) (suc m) (x ∷ xs) ys zs h k =
    ap (◌∷◌ x) (take-take-append n m xs ys zs (omega arith) (omega arith))

live-realloc :
    (a : VarArray) (n : ℕ) → a.count ≤ n → a.count ≤ length a.cells → live (realloc a n) ≡ live a
unfolding realloc resize
live-realloc a n h k =
    take-take-append a.count (n + chunk) a.cells (replicate (n + chunk) unset)
      (drop a.count (replicate (n + chunk) unset)) (omega arith) k

-- What the new variable's cell needs: it exists, and the cells before it are the old ones.
record HasRoom (a r : VarArray) : Type 0 where
  same_count : r.count ≡ a.count
  same_live : live r ≡ live a
  cell : suc r.count ≤ length r.cells
  valid : suc r.count + (chunk - suc r.count % chunk) % chunk ≤ length r.cells

make_room-HasRoom : {a : VarArray} → IsValid a → HasRoom a (make_room a)
unfolding make_room realloc
make_room-HasRoom {a} v = elim (Bool-cases (a.count % chunk == 0)) [
  | inl full ↦ rw full (record {
    same_count = refl;
    same_live = live-realloc a a.count (omega arith) v.within;
    cell = omega (arith, length-realloc a a.count (omega arith));
    valid = ground (arith, length-realloc a a.count (omega arith));
  })
  | inr free ↦ rw free (ground (arith, v))
]

take-set :
    (xs : List Var) (n : ℕ) (v : Var)
    → suc n ≤ length xs
    → take (suc n) (set xs n v) ≡ take n xs ++ v ∷ []
take-set [] n v h = absurd (omega arith)
take-set (x ∷ xs) zero v h = refl
take-set (x ∷ xs) (suc n) v h = ap (◌∷◌ x) (take-set xs n v (omega arith))

upsert-none :
    (n : CString) (value : Option CString) (vs : List Var)
    → index_of n vs ≡ none
    → upsert n value vs ≡ vs ++ record { name = n; value = value } ∷ []
unfolding upsert index_of
upsert-none n value [] h = refl
upsert-none n value (v ∷ vs) h = ground (arith, upsert-none n value vs)

upsert-some :
    (n : CString) (value : Option CString) (c i : ℕ) (cells : List Var)
    → index_of n (take c cells) ≡ some i
    → take c (set cells i (record { name = n; value = value })) ≡ upsert n value (take c cells)
unfolding upsert index_of
upsert-some n value zero i cells h = cc
upsert-some n value (suc c) i [] h = cc
upsert-some n value (suc c) zero (v ∷ cells) h = ground (arith, h)
upsert-some n value (suc c) (suc i) (v ∷ cells) h = ground (arith, upsert-some n value c i cells)

-- Setting a variable replaces its value where it stands, or appends it, and leaves the others alone.
pub live-set_var :
    (n : CString) (value : Option CString) {a : VarArray}
    → IsValid a
    → live (set_var a n value) ≡ upsert n value (live a)
unfolding set_var
live-set_var n value {a} v = elim (Option-cases (index_of n (live a))) [
  | inl e ↦
      let r = make_room-HasRoom v in
      rw (e, set_var)
        (take-set (make_room a).cells (make_room a).count _ r.cell
          ∙ rw r.same_live (sym (upsert-none n value (live a) e)))
  | inr (i, e) ↦ rw (e, set_var) (upsert-some n value a.count i a.cells e)
]

-- Setting a variable in a well-formed array leaves a well-formed one: the cells in use, the new one
-- included, lie inside the memory that is allocated, and room is left up to the next multiple of the
-- chunk.
pub set_var-IsValid :
    (n : CString) (value : Option CString) {a : VarArray} → IsValid a → IsValid (set_var a n value)
unfolding set_var
set_var-IsValid n value {a} v = elim (Option-cases (index_of n (live a))) [
  | inl e ↦
      let r = make_room-HasRoom v in
      rw (e, set_var)
        (record {
          within = omega (arith, r.cell, length-set (make_room a).cells (make_room a).count _);
          room = omega (arith, r.valid, length-set (make_room a).cells (make_room a).count _);
        })
  | inr (i, e) ↦
      rw (e, set_var)
        (record {
          within = omega (arith, length-set a.cells i (record { name = n; value = value }));
          room = omega (arith, length-set a.cells i (record { name = n; value = value }));
        })
]

pub find-upsert :
    (n m : CString) (value : Option CString) (vs : List Var)
    → find m (upsert n value vs)
      ≡ (if str_eq n m then some (record { name = n; value = value }) else find m vs)
unfolding find upsert
find-upsert n m value [] = refl
find-upsert n m value (v ∷ vs) =
    ground
      (arith, str_eq_iff n m, str_eq_iff v.name n, str_eq_iff v.name m, find-upsert n m value vs)

-- What ni_var_array_get finds in a well-formed array after ni_var_array_set: the new value under
-- that name, and under any other name what it found before.
pub get-set_var :
    (n m : CString) (value : Option CString) {a : VarArray}
    → IsValid a
    → get (set_var a n value) m
      ≡ (if str_eq n m then some (record { name = n; value = value }) else get a m)
unfolding get
get-set_var n m value {a} v = rw (live-set_var n value v) (find-upsert n m value (live a))

-- ni_var_array_copy yields an array in which nothing is found, whatever the source holds.
pub get-copy : (dst src : VarArray) (n : CString) → get (copy dst src) n ≡ none
unfolding get copy find realloc
get-copy dst src n = refl

length-insert_var : (v : Var) (vs : List Var) → length (insert_var v vs) ≡ suc (length vs)
unfolding insert_var
length-insert_var v [] = refl
length-insert_var v (w ∷ ws) = ground (arith, length-insert_var v ws)

pub length-sort_vars : (vs : List Var) → length (sort_vars vs) ≡ length vs
unfolding sort_vars
length-sort_vars [] = refl
length-sort_vars (v ∷ vs) = omega (arith, length-insert_var v (sort_vars vs), length-sort_vars vs)

-- ni_var_array_sort permutes the cells in use and touches no other.
pub live-sort : {a : VarArray} → IsValid a → live (sort a) ≡ sort_vars (live a)
unfolding sort
live-sort {a} v =
    let n : length (sort_vars (live a)) ≡ a.count =
      omega (arith, length-sort_vars (live a), length-take a.count a.cells, v.within) in
    ap (λ k. take k (sort_vars (live a) ++ drop a.count a.cells)) (sym n)
    ∙ take-length-append (sort_vars (live a)) (drop a.count a.cells)

pub sort-IsValid : {a : VarArray} → IsValid a → IsValid (sort a)
unfolding sort
sort-IsValid {a} v =
    let n : length (sort_vars (live a) ++ drop a.count a.cells) ≡ length a.cells = omega (
      arith,
      length-append (sort_vars (live a)) (drop a.count a.cells),
      length-sort_vars (live a),
      length-take a.count a.cells,
      length-drop a.count a.cells,
      v.within,
    ) in
    record { within = omega (arith, n, v.within); room = omega (arith, n, v.room) }
