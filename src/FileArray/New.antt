-- ===== src/FileArray/New.antt =====
-- ni_testbus_file_new: the new file belongs to the array alone.
use testbus.Base.{
  ◌+◌, ◌%◌, ◌^◌, ℕ, suc, ◌≡◌, ◌∙◌, [], ◌∷◌, ◌++◌, Option, none, some, arith, CString, if◌then◌else◌,
  ◌==◌, ==_iff, length,
}
use testbus.FileStore.{File, Store, at, alloc, fresh_inum}
use testbus.FileStore.Laws.{at-alloc, at_fresh, file_get_lem, file_put_lem}
use testbus.FileArray.{FileArray, file_new}
use testbus.FileArray.Refs.{Accounts, count, count-append}

-- The file that ni_testbus_file_new makes.
abbrev pub new_file : Option CString → FileArray → ℕ → Store → File
new_file name array mode s = record {
  refcount = 1;
  id = array.next_id;
  object_path = none;
  name = name;
  mode = if mode == 0 then 1 else mode;
  inum = s.next_inum;
  iseq = 0;
  instance_path = none;
  content = none;
  size = 0;
}

-- Making a file succeeds. It stands at a fresh address with the count 1, the array's next id and the
-- mode READ if none is given; the array has it as its last entry; no other file is touched; and
-- the accounts hold: nobody but the array refers to it.
pub file_new_lem :
    (others : ℕ → ℕ) (name : Option CString) (array : FileArray) (mode : ℕ) (s : Store)
    → Accounts others array.files s
    → let f = length s.cells in
      (s' : Store) × (file_new name array mode s
        ≡ some (
          (f, record { next_id = (array.next_id + 1) % 2 ^ 32; files = array.files ++ f ∷ [] }),
          s',
        ))
      × ((a : ℕ) → at s' a ≡ (if f == a then some (new_file name array mode s) else at s a))
      × Accounts others (array.files ++ f ∷ []) s'
unfolding file_new alloc fresh_inum count
file_new_lem others name array mode s v =
    let f = length s.cells in
    let x = new_file name array mode s in
    let s2 : Store = record {
      cells = s.cells ++ some x ∷ [];
      next_inum = (s.next_inum + 1) % 2 ^ 32;
    } in
    let (s3, run3, eff3) = file_get_lem f s2 x (at-alloc x s f ∙ ground arith) (omega arith) in
    let (s4, run4, eff4) =
      file_put_lem f s3 (record x { refcount = 2 }) (eff3 f ∙ ground arith) (omega arith) in
    let eff = λ (a : ℕ). effect s s3 s4 f x a (at-alloc x s a) (eff3 a) (eff4 a) in
    (
      s4,
      ground (arith, run3, run4),
      eff,
      record {
        counted = λ a. ground (
          arith,
          eff a,
          v.counted a,
          at_fresh s,
          ==_iff f a,
          count-append a array.files (f ∷ []),
        );
        positive = λ a y e. ground (arith, eff a, v.positive a y, e);
      },
    )
  where
    effect :
        (s s3 s4 : Store) (f : ℕ) (x : File) (a : ℕ)
        → at (record s { cells = s.cells ++ some x ∷ [] }) a ≡ (if f == a then some x else at s a)
        → at s3 a ≡ (
            if f == a
            then some (record x { refcount = suc x.refcount })
            else at (record s { cells = s.cells ++ some x ∷ [] }) a)
        → at s4 a ≡ (if f == a then some x else at s3 a)
        → at s4 a ≡ (if f == a then some x else at s a)
    effect s s3 s4 f x a p q r = ground (arith, p, q, r)
