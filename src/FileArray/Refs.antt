-- ===== src/FileArray/Refs.antt =====
-- The references of an array are the ones that it counts, whatever it does.
use testbus.Base.{
  ℕ, zero, suc, ◌+◌, ◌<◌, ◌≡◌, refl, List, [], ◌∷◌, ◌++◌, none, some, Bool, true, false, arith,
  if◌then◌else◌, ◌==◌, ==_iff, Bool-cases, Option-cases, inl, inr, get_elem?, set,
}
use testbus.FileStore.{File, Store, at, file_get, file_put}
use testbus.FileStore.Laws.{file_get_lem, file_put_lem}
use testbus.FileArray.{FileArray, append, index, delete_at, remove, set_at, destroy_files, destroy}

unfoldable pub count : ℕ → List ℕ → ℕ
count a [] = 0
count a (f ∷ fs) = (if f == a then 1 else 0) + count a fs

abbrev pub refs : Store → ℕ → ℕ
refs s a = elim (at s a) [ none ↦ 0 | some x ↦ x.refcount ]

-- Every file's count is what the array holds and `others` hold, and no live file has count 0: a
-- file is freed exactly when nobody refers to it.
pub record Accounts (others : ℕ → ℕ) (files : List ℕ) (s : Store) : Type 0 where
  pub counted : (a : ℕ) → refs s a ≡ others a + count a files
  pub positive : (a : ℕ) (x : File) → at s a ≡ some x → 0 < x.refcount

-- Every live file is still there, and nothing of it but the count has changed.
abbrev pub Keeps : Store → Store → Type 0
Keeps s s' =
    (a : ℕ) (x : File) → at s a ≡ some x → (n : ℕ) × (at s' a ≡ some (record x { refcount = n }))

pub count-append : (a : ℕ) (xs ys : List ℕ) → count a (xs ++ ys) ≡ count a xs + count a ys
unfolding count
count-append a [] ys = omega arith
count-append a (x ∷ xs) ys = omega (arith, count-append a xs ys)

-- What a run of `append` says of the file_get inside it.
get_of_append :
    (array : FileArray) (f : ℕ) (s s' : Store)
    → append array f s ≡ some (record array { files = array.files ++ f ∷ [] }, s')
    → file_get f s ≡ some (tt, s')
unfolding append
get_of_append array f s s' h = ground (arith, h, Option-cases (file_get f s))

-- While the count of every file is the number of references to it, appending a live file to an array
-- succeeds, the counts stay right with that one reference more, and nothing else of a live file
-- changes.
pub append_lem :
    (others : ℕ → ℕ) (array : FileArray) (f : ℕ) (s : Store) (x : File)
    → Accounts others array.files s
    → at s f ≡ some x
    → (s' : Store) × (append array f s ≡ some (record array { files = array.files ++ f ∷ [] }, s'))
      × Accounts others (array.files ++ f ∷ []) s'
      × Keeps s s'
unfolding append count
append_lem others array f s x v h =
    let (s', run, eff) = file_get_lem f s x h (v.positive f x h) in
    (
      s',
      ground (arith, run),
      record {
        counted = λ a.
            ground (arith, eff a, v.counted a, count-append a array.files (f ∷ []), h, ==_iff f a);
        positive = λ a y e. ground (arith, eff a, v.positive a y, e);
      },
      λ a y e. elim (Bool-cases (f == a)) [
        | inl q ↦ (suc x.refcount, ground (arith, eff a, ==_iff f a, h, e))
        | inr q ↦ (y.refcount, ground (arith, eff a, e))
      ],
    )

refs-none : (s : Store) (a : ℕ) → at s a ≡ none → refs s a ≡ 0
refs-none s a e = rw (e, refs)

live-of-refs : (s : Store) (a : ℕ) → 0 < refs s a → (x : File) × (at s a ≡ some x)
live-of-refs s a h = elim (Option-cases (at s a)) [
  | inl e ↦ absurd (omega (arith, refs-none s a e))
  | inr (x, e) ↦ (x, e)
]

-- Dropping one of the references that the array holds.
pub put_lem :
    (others : ℕ → ℕ) (f : ℕ) (fs : List ℕ) (s : Store)
    → Accounts others (f ∷ fs) s
    → (s' : Store) × (file_put f s ≡ some (tt, s')) × Accounts others fs s'
unfolding count
put_lem others f fs s v =
    let (x, h) = live-of-refs s f (ground (arith, v.counted f, ==_iff f f)) in
    let (s', run, eff) = file_put_lem f s x h (v.positive f x h) in
    (
      s',
      run,
      record {
        counted = λ a. ground (arith, eff a, v.counted a, h, ==_iff f a, v.positive f x h);
        positive = λ a y e. ground (arith, eff a, v.positive a y, v.positive f x h, e);
      },
    )

-- The list without its first `f`.
pub remove_first : ℕ → List ℕ → List ℕ
remove_first f [] = []
remove_first f (g ∷ gs) = if g == f then gs else g ∷ remove_first f gs

delete_at-index : (f i : ℕ) (fs : List ℕ) → index fs f ≡ some i → delete_at fs i ≡ remove_first f fs
unfolding index delete_at remove_first
delete_at-index f i [] h = cc
delete_at-index f zero (g ∷ gs) h = ground arith
delete_at-index f (suc i) (g ∷ gs) h = ground (arith, delete_at-index f i gs)

count-remove_first :
    (f i a : ℕ) (fs : List ℕ) → index fs f ≡ some i → count a (f ∷ remove_first f fs) ≡ count a fs
unfolding index count remove_first
count-remove_first f i a [] h = cc
count-remove_first f zero a (g ∷ gs) h = ground (arith, ==_iff g f)
count-remove_first f (suc i) a (g ∷ gs) h = ground (arith, ==_iff g f, count-remove_first f i a gs)

index-none : (f : ℕ) (fs : List ℕ) → index fs f ≡ none → (count f fs ≡ 0) × (remove_first f fs ≡ fs)
unfolding index count remove_first
index-none f [] h = (refl, refl)
index-none f (g ∷ gs) h = ground (arith, index-none f gs)

count-set :
    (a i f old : ℕ) (fs : List ℕ)
    → get_elem? fs i ≡ some old
    → count a (old ∷ set fs i f) ≡ count a (fs ++ f ∷ [])
unfolding count
count-set a i f old [] h = cc
count-set a zero f old (g ∷ gs) h = ground (arith, count-append a gs (f ∷ []), h)
count-set a (suc i) f old (g ∷ gs) h = ground (arith, count-set a i f old gs h)

-- While the count of every file is the number of references to it, removing a file takes its first
-- entry out of the array and says whether there was one. The counts stay right: the array's
-- reference is dropped, and a file is freed exactly when nobody refers to it.
pub remove_lem :
    (others : ℕ → ℕ) (array : FileArray) (f : ℕ) (s : Store)
    → Accounts others array.files s
    → (found : Bool) × (s' : Store) × (remove array f s
        ≡ some ((found, record array { files = remove_first f array.files }), s'))
      × Accounts others (remove_first f array.files) s'
      × (found ≡ (if count f array.files == 0 then false else true))
unfolding remove
remove_lem others array f s v = elim (Option-cases (index array.files f)) [
  | inl e ↦
      let (zeros, same) = index-none f array.files e in
      (false, s, ground (arith, e, same), rw same v, ground (arith, zeros))
  | inr (i, e) ↦
      let (s', run, v') = put_lem others f (remove_first f array.files) s (record {
        counted = λ a. omega (arith, v.counted a, count-remove_first f i a array.files e);
        positive = v.positive;
      }) in
      (
        true,
        s',
        ground (arith, e, run, delete_at-index f i array.files e),
        v',
        ground (
          arith,
          count-remove_first f i f array.files e,
          count-head f (remove_first f array.files),
        ),
      )
]
  where
    count-head : (a : ℕ) (fs : List ℕ) → count a (a ∷ fs) ≡ suc (count a fs)
    count-head a fs = unfold count in ground (arith, ==_iff a a)

destroy_files_lem :
    (others : ℕ → ℕ) (fs : List ℕ) (s : Store)
    → Accounts others fs s
    → (s' : Store) × (destroy_files fs s ≡ some (tt, s')) × Accounts others [] s'
unfolding destroy_files
destroy_files_lem others [] s v = (s, refl, v)
destroy_files_lem others (f ∷ fs) s v =
    let (s1, run1, v1) = put_lem others f fs s v in
    let (s2, run2, v2) = destroy_files_lem others fs s1 v1 in (s2, ground (arith, run1, run2), v2)

-- While the count of every file is the number of references to it, destroying an array succeeds and
-- gives up all its references: the counts are those of the references that others hold, and a file
-- that nobody else refers to is freed.
pub destroy_lem :
    (others : ℕ → ℕ) (array : FileArray) (s : Store)
    → Accounts others array.files s
    → (s' : Store) × (destroy array s ≡ some (record { next_id = 0; files = [] }, s'))
      × Accounts others [] s'
unfolding destroy
destroy_lem others array s v =
    let (s', run, v') = destroy_files_lem others array.files s v in (s', ground (arith, run), v')

-- While the count of every file is the number of references to it, ni_testbus_file_array_set puts a
-- live file in the place of another and the counts stay right, also if it is the file that stands
-- there already: the new file is counted before the old one is dropped.
pub set_at_lem :
    (others : ℕ → ℕ) (array : FileArray) (i f old : ℕ) (s : Store) (x : File)
    → Accounts others array.files s
    → get_elem? array.files i ≡ some old
    → at s f ≡ some x
    → (s' : Store) × (set_at array i f s ≡ some (record array { files = set array.files i f }, s'))
      × Accounts others (set array.files i f) s'
unfolding set_at
set_at_lem others array i f old s x v e h =
    let (s1, run1, v1, _) = append_lem others array f s x v h in
    let (s2, run2, v2) = put_lem others old (set array.files i f) s1 (record {
      counted = λ a. omega (arith, v1.counted a, count-set a i f old array.files e);
      positive = v1.positive;
    }) in
    (s2, ground (arith, e, get_of_append array f s s1 run1, run2), v2)
