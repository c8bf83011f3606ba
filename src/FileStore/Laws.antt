-- ===== src/FileStore/Laws.antt =====
-- What ni_testbus_file_get and ni_testbus_file_put do to the store.
use testbus.Base.{
  ℕ, zero, suc, ◌-◌, ◌<◌, ◌≡◌, refl, List, [], ◌∷◌, ◌++◌, Option, none, some, arith, get_elem?, set,
  length, if◌then◌else◌, ◌==◌, ==_iff, Bool-cases, inl, inr, get_elem?-set_self, get_elem?-set_ne,
  get_elem?-none,
}
use testbus.FileStore.{File, Store, at, file_get, file_put}

at-lt :
    (f : ℕ) (cells : List (Option File)) {c : Option File}
    → get_elem? cells f ≡ some c
    → f < length cells
at-lt f [] h = cc
at-lt zero (c ∷ cs) h = omega arith
at-lt (suc f) (c ∷ cs) h = omega (arith, at-lt f cs h)

-- A write through a live address changes that cell and no other.
pub at-write :
    (f a : ℕ) (s : Store) (x : File) (c : Option File)
    → at s f ≡ some x
    → at (record s { cells = set s.cells f c }) a ≡ (if f == a then c else at s a)
at-write f a s x c h = elim (Bool-cases (f == a)) [
  | inl e ↦ ground (arith, ==_iff f a, get_elem?-set_self s.cells f c, get_elem?-none s.cells f)
  | inr e ↦ ground (arith, ==_iff f a, get_elem?-set_ne s.cells {i = f} {j = a} c)
]

-- Only the count of the file changes, and by one.
pub file_get_lem :
    (f : ℕ) (s : Store) (x : File)
    → at s f ≡ some x
    → 0 < x.refcount
    → (s' : Store) × (file_get f s ≡ some (tt, s'))
      × ((a : ℕ)
          → at s' a ≡ (if f == a then some (record x { refcount = suc x.refcount }) else at s a))
unfolding file_get
file_get_lem f s x h p =
    let c = some (record x { refcount = suc x.refcount }) in
    (record s { cells = set s.cells f c }, ground arith, λ a. at-write f a s x c h)

-- The last reference frees the file.
pub file_put_lem :
    (f : ℕ) (s : Store) (x : File)
    → at s f ≡ some x
    → 0 < x.refcount
    → (s' : Store) × (file_put f s ≡ some (tt, s'))
      × ((a : ℕ)
          → at s' a ≡ (
              if f == a
              then if x.refcount - 1 == 0
                then none
                else some (record x { refcount = x.refcount - 1 })
              else at s a))
unfolding file_put
file_put_lem f s x h p =
    let c = if x.refcount - 1 == 0 then none else some (record x { refcount = x.refcount - 1 }) in
    (record s { cells = set s.cells f c }, ground arith, λ a. at-write f a s x c h)

get-append :
    (cells : List (Option File)) (c : Option File) (a : ℕ)
    → elim (get_elem? (cells ++ c ∷ []) a) [ none ↦ none | some x ↦ x ]
      ≡ (if length cells == a then c else elim (get_elem? cells a) [ none ↦ none | some x ↦ x ])
get-append [] c zero = refl
get-append [] c (suc a) = ground arith
get-append (x ∷ xs) c zero = ground arith
get-append (x ∷ xs) c (suc a) = ground (arith, get-append xs c a)

-- A new file stands at an address of its own.
pub at-alloc :
    (file : File) (s : Store) (a : ℕ)
    → at (record s { cells = s.cells ++ some file ∷ [] }) a
      ≡ (if length s.cells == a then some file else at s a)
at-alloc file s a = get-append s.cells (some file) a

pub at_fresh : (s : Store) → at s (length s.cells) ≡ none
at_fresh s = ground (arith, get_elem?-none s.cells (length s.cells))
