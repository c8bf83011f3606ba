-- ===== src/Container/Files.antt =====
-- The files that a process inherits, and the search for a file by name.
use testbus.Base.{
  ℕ, ◌≡◌, refl, List, [], ◌∷◌, ◌++◌, Option, none, some, true, false, arith, CString, if◌then◌else◌,
  Bool-cases, Option-cases, inl, inr, append-nil,
}
use testbus.FileStore.{Store, return}
use testbus.FileArray.{FileArray, find_by_name}
use testbus.FileArray.Refs.{Accounts}
use testbus.FileArray.Names.{
  or_else, Live, named, named-append, Live-Keeps, Keeps-trans, find_by_name_lem, IsMerge,
  merge_by_name,
}
use testbus.Container.{Container, Chain, has_files, merge_files, get_file_by_name}

-- The files of a container and its ancestors, of those that have files, nearest first.
unfoldable pub chain_files : Chain → List ℕ
chain_files [] = []
chain_files (c ∷ cs) = (if has_files c then c.files.files else []) ++ chain_files cs

Live-split :
    (names : ℕ → Option CString) (s : Store) (fs gs : List ℕ)
    → Live names s (fs ++ gs)
    → Live names s fs × Live names s gs
Live-split names s [] gs l = (tt, l)
Live-split names s (f ∷ fs) gs l = let (a, b) = Live-split names s fs gs l.1 in ((l.0, a), b)

or_else_assoc : (o p q : Option ℕ) → or_else (or_else o p) q ≡ or_else o (or_else p q)
or_else_assoc none p q = refl
or_else_assoc (some a) p q = refl

or_else-none : (o : Option ℕ) → o ≡ or_else o none
or_else-none none = refl
or_else-none (some a) = refl

-- Merging the files of a container and its ancestors into an array of live files always succeeds.
-- A name that the array had stands for the same file as before; any other name stands for the
-- first file of that name from the container up. The counts stay right, and no file is freed.
pub merge_files_lem :
    (others : ℕ → ℕ) (names : ℕ → Option CString) (chain : Chain) (result : FileArray) (s : Store)
    → Accounts others result.files s
    → Live names s result.files
    → Live names s (chain_files chain)
    → (r : FileArray) × (s' : Store) × (merge_files chain result s ≡ some (r, s'))
      × IsMerge others names result.files (chain_files chain) s r.files s'
unfolding merge_files chain_files named
merge_files_lem others names [] result s v l m = (
  result,
  s,
  refl,
  record {
    accounts = v;
    keeps = λ a x h. (x.refcount, h);
    live = l;
    lookup = λ n. or_else-none (named names result.files n);
  },
)
merge_files_lem others names (c ∷ cs) result s v l m = elim (Bool-cases (has_files c)) [
  | inr off ↦
      let (r, s', run, i) =
        merge_files_lem others names cs result s v l
          (Live-split names s (if has_files c then c.files.files else []) (chain_files cs) m).1 in
      (
        r,
        s',
        ground (arith, off, run),
        record {
          accounts = i.accounts;
          keeps = i.keeps;
          live = i.live;
          lookup = λ n. ground (arith, off, i.lookup n);
        },
      )
  | inl on ↦
      let (here, up) =
        Live-split names s (if has_files c then c.files.files else []) (chain_files cs) m in
      let (r1, s1, run1, i1) = merge_by_name others names result c.files s v l (rw on at here) in
      let (r, s', run, i) =
        merge_files_lem others names cs r1 s1 i1.accounts i1.live
          (Live-Keeps names s s1 (chain_files cs) i1.keeps up) in
      (
        r,
        s',
        ground (arith, on, run1, run),
        record {
          accounts = i.accounts;
          keeps = Keeps-trans s s1 s' i1.keeps i.keeps;
          live = i.live;
          lookup = λ n. ground (
            arith,
            on,
            i.lookup n,
            i1.lookup n,
            named-append names c.files.files (chain_files cs) n,
            or_else_assoc (named names result.files n) (named names c.files.files n)
                (named names (chain_files cs) n),
          );
        },
      )
]

own_files :
    (names : ℕ → Option CString) (c : Container) (n : Option CString) (s : Store)
    → Live names s (if has_files c then c.files.files else [])
    → (if has_files c then find_by_name c.files.files n else return none) s
      ≡ some (named names (if has_files c then c.files.files else []) n, s)
unfolding named
own_files names c n s l = elim (Bool-cases (has_files c)) [
  | inl on ↦ rw on (find_by_name_lem names s c.files.files n (rw on at l))
  | inr off ↦ rw off refl
]

search_up :
    (names : ℕ → Option CString) (cs : Chain) (n : Option CString) (s : Store)
    → Live names s (chain_files cs)
    → get_file_by_name cs n true s ≡ some (named names (chain_files cs) n, s)
unfolding get_file_by_name chain_files named
search_up names [] n s l = refl
search_up names (c ∷ cs) n s l =
    let own = if has_files c then c.files.files else [] in
    let (here, up) = Live-split names s own (chain_files cs) l in
    ground (
      arith,
      own_files names c n s here,
      search_up names cs n s up,
      named-append names own (chain_files cs) n,
      Option-cases (named names own n),
    )

-- Among live files, the global search for a file by name finds the first file of that name from the
-- container up, and the local one looks at the container's own files only. Neither changes a file.
pub get_file_by_name_lem :
    (names : ℕ → Option CString) (c : Container) (cs : Chain) (n : Option CString) (s : Store)
    → Live names s (chain_files (c ∷ cs))
    → (get_file_by_name (c ∷ cs) n true s ≡ some (named names (chain_files (c ∷ cs)) n, s))
      × (get_file_by_name (c ∷ cs) n false s ≡ some (named names (chain_files (c ∷ [])) n, s))
unfolding get_file_by_name chain_files
get_file_by_name_lem names c cs n s l =
    let own = if has_files c then c.files.files else [] in
    let (here, up) = Live-split names s own (chain_files cs) l in
    (
      search_up names (c ∷ cs) n s l,
      rw (append-nil own)
          (ground (arith, own_files names c n s here, Option-cases (named names own n))),
    )
