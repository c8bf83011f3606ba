-- ===== src/FileArray/Names.antt =====
-- Which file an array has under a name, after other arrays were merged into it.
use testbus.Base.{
  ℕ, ◌≡◌, refl, List, [], ◌∷◌, ◌++◌, Option, none, some, arith, CString, string_eq, string_eq_iff,
  if◌then◌else◌, Option-cases, inl, inr, All,
}
use testbus.FileStore.{File, Store, at, load}
use testbus.FileArray.{FileArray, find_by_name, merge_files, merge}
use testbus.FileArray.Refs.{Accounts, Keeps, append_lem}

abbrev pub or_else {ℓ} : {A : Type ℓ} → Option A → Option A → Option A
or_else none p = p
or_else (some v) p = some v

-- Every file of the list is live, and has the name that `names` gives.
abbrev pub Live : (ℕ → Option CString) → Store → List ℕ → Type 0
Live names s = All (λ f. (x : File) × (at s f ≡ some x) × (x.name ≡ names f))

-- The first file of the list that has the name.
unfoldable pub named : (ℕ → Option CString) → List ℕ → Option CString → Option ℕ
named names [] n = none
named names (f ∷ fs) n = if string_eq (names f) n then some f else named names fs n

pub Live-Keeps :
    (names : ℕ → Option CString) (s s' : Store) (fs : List ℕ)
    → Keeps s s'
    → Live names s fs
    → Live names s' fs
Live-Keeps names s s' [] k l = tt
Live-Keeps names s s' (f ∷ fs) k l =
    let (x, h, e) = l.0 in
    let (n, h') = k f x h in ((record x { refcount = n }, h', e), Live-Keeps names s s' fs k l.1)

pub Keeps-trans : (s t u : Store) → Keeps s t → Keeps t u → Keeps s u
Keeps-trans s t u k l a x h =
    let (n, h') = k a x h in let (m, h'') = l a (record x { refcount = n }) h' in (m, h'')

Live-append :
    (names : ℕ → Option CString) (s : Store) (fs gs : List ℕ)
    → Live names s fs
    → Live names s gs
    → Live names s (fs ++ gs)
Live-append names s [] gs l m = m
Live-append names s (f ∷ fs) gs l m = (l.0, Live-append names s fs gs l.1 m)

pub named-append :
    (names : ℕ → Option CString) (fs gs : List ℕ) (n : Option CString)
    → named names (fs ++ gs) n ≡ or_else (named names fs n) (named names gs n)
unfolding named
named-append names [] gs n = refl
named-append names (f ∷ fs) gs n = ground (arith, named-append names fs gs n)

-- ni_testbus_file_array_find_by_name finds the first file of that name, and changes nothing.
pub find_by_name_lem :
    (names : ℕ → Option CString) (s : Store) (fs : List ℕ) (n : Option CString)
    → Live names s fs
    → find_by_name fs n s ≡ some (named names fs n, s)
unfolding find_by_name named load
find_by_name_lem names s [] n l = refl
find_by_name_lem names s (f ∷ fs) n l =
    let (x, h, e) = l.0 in ground (arith, h, e, find_by_name_lem names s fs n l.1)

-- What ni_testbus_file_array_merge does to the store and the accounts, and what is found by name in
-- its result.
pub record IsMerge (others : ℕ → ℕ) (names : ℕ → Option CString) (result fs : List ℕ) (s : Store)
    (out : List ℕ) (s' : Store) : Type 0 where
  pub accounts : Accounts others out s'
  pub keeps : Keeps s s'
  pub live : Live names s' out
  pub lookup :
      (n : Option CString) → named names out n ≡ or_else (named names result n) (named names fs n)

merge_files-IsMerge :
    (others : ℕ → ℕ) (names : ℕ → Option CString) (result : FileArray) (fs : List ℕ) (s : Store)
    → Accounts others result.files s
    → Live names s result.files
    → Live names s fs
    → (r : FileArray) × (s' : Store) × (merge_files result fs s ≡ some (r, s'))
      × IsMerge others names result.files fs s r.files s'
unfolding merge_files named load
merge_files-IsMerge others names result [] s v l m = (
  result,
  s,
  refl,
  record {
    accounts = v;
    keeps = λ a x h. (x.refcount, h);
    live = l;
    lookup = λ n. or_else-none (named names result.files n);
  },
)
  where
    or_else-none : (o : Option ℕ) → o ≡ or_else o none
    or_else-none none = refl
    or_else-none (some a) = refl
merge_files-IsMerge others names result (f ∷ fs) s v l m =
    let (x, h, e) = m.0 in
    let found = find_by_name_lem names s result.files x.name l in
    elim (Option-cases (named names result.files x.name)) [
      | inr (g, hit) ↦
          let (r, s', run, i) = merge_files-IsMerge others names result fs s v l m.1 in
          (
            r,
            s',
            ground (arith, h, found, hit, run),
            record {
              accounts = i.accounts;
              keeps = i.keeps;
              live = i.live;
              lookup = λ n. ground (arith, i.lookup n, string_eq_iff (names f) n, hit, e);
            },
          )
      | inl miss ↦
          let (s1, run1, v1, k1) = append_lem others result f s x v h in
          let l1 =
            Live-Keeps names s s1 (result.files ++ f ∷ []) k1
              (Live-append names s result.files (f ∷ []) l (m.0, tt)) in
          let (r, s', run, i) =
            merge_files-IsMerge others names (record result { files = result.files ++ f ∷ [] }) fs
              s1 v1 l1 (Live-Keeps names s s1 fs k1 m.1) in
          (
            r,
            s',
            ground (arith, h, found, miss, run1, run),
            record {
              accounts = i.accounts;
              keeps = Keeps-trans s s1 s' k1 i.keeps;
              live = i.live;
              lookup = λ n. ground (arith, i.lookup n, named-append names result.files (f ∷ []) n);
            },
          )
    ]

pub merge_by_name :
    (others : ℕ → ℕ) (names : ℕ → Option CString) (result other : FileArray) (s : Store)
    → Accounts others result.files s
    → Live names s result.files
    → Live names s other.files
    → (r : FileArray) × (s' : Store) × (merge result other s ≡ some (r, s'))
      × IsMerge others names result.files other.files s r.files s'
unfolding merge
merge_by_name others names result other s v l m =
    merge_files-IsMerge others names result other.files s v l m
