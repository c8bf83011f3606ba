-- ===== src/FileArray/Transfer.antt =====
-- A file that is sent to an agent arrives.
use testbus.Base.{
  ℕ, ◌+◌, ◌%◌, ◌^◌, ◌<◌, ◌≡◌, refl, ap, ◌∙◌, [], ◌∷◌, ◌++◌, Option, none, some, arith, str_eq,
  if◌then◌else◌, ◌==◌, length, set, CString,
}
use testbus.Dict.{dict_add, find_entry, append_entry, dict_get_by, get_string, get_uint32, dict_get}
use testbus.FileStore.{File, Store, at, load, write, ◌>>=◌, ◌>>◌, return}
use testbus.FileStore.Laws.{at-write}
use testbus.FileArray.{FileArray, file_new}
use testbus.FileArray.Refs.{Accounts}
use testbus.FileArray.New.{new_file, file_new_lem}
use testbus.FileArray.Serial.{Fields, serialize, read_fields, with_fields, deserialize}

-- Its numbers have 32 bits, and it has a mode, as every file that ni_testbus_file_new makes.
abbrev pub IsSendable : File → Type 0
IsSendable x = (x.inum < 2 ^ 32) × (x.iseq < 2 ^ 32) × (x.mode < 2 ^ 32) × (0 < x.mode)

-- The file as it arrives, with the id that it gets in its array.
abbrev pub arrived : ℕ → File → File
arrived id x = record x { refcount = 1; id = id; instance_path = none; content = none; size = 0 }

abbrev sent : File → Fields
sent x = record {
  name = x.name;
  inum = x.inum % 2 ^ 32;
  iseq = x.iseq % 2 ^ 32;
  mode = x.mode % 2 ^ 32;
  path = elim x.object_path [ none ↦ none | some path ↦ some (some path) ];
}

sent_lem : (x : File) → read_fields (serialize x) ≡ some (sent x)
unfolding read_fields serialize dict_add find_entry append_entry dict_get_by get_string get_uint32
    dict_get str_eq
sent_lem x =
    elim x.object_path
      as (λ p.
        read_fields (serialize (record x { object_path = p }))
        ≡ some (sent (record x { object_path = p }))) [ none ↦ refl | some path ↦ refl ]

sent_path :
    (x : File)
    → (elim (sent x).path as (λ _. Option CString) [ none ↦ none | some path ↦ path ])
      ≡ x.object_path
sent_path x =
    elim x.object_path
      as (λ p.
        (elim (sent (record x { object_path = p })).path as (λ _. Option CString) [
          | none ↦ none
          | some path ↦ path
        ])
        ≡ p) [ none ↦ refl | some path ↦ refl ]

arrived_lem :
    (array : FileArray) (x : File) (s : Store)
    → IsSendable x
    → with_fields (sent x) (new_file x.name array (x.mode % 2 ^ 32) s) ≡ arrived array.next_id x
arrived_lem array x s h =
    let (inum_lt, iseq_lt, mode_lt, mode_pos) = h in
    let y = λ (a b c : ℕ) (p : Option CString). record (arrived array.next_id x) {
      inum = a;
      iseq = b;
      mode = c;
      object_path = p;
    } in
    let path = sent_path x in
    let inum : x.inum % 2 ^ 32 ≡ x.inum = omega arith in
    let iseq : x.iseq % 2 ^ 32 ≡ x.iseq = omega arith in
    let mode : x.mode % 2 ^ 32 ≡ x.mode = omega arith in
    let kept : (if x.mode % 2 ^ 32 == 0 then 1 else x.mode % 2 ^ 32) ≡ x.mode =
      ground (arith, mode) in
    ap
      (λ q.
        y (x.inum % 2 ^ 32) (x.iseq % 2 ^ 32) (if x.mode % 2 ^ 32 == 0 then 1 else x.mode % 2 ^ 32)
          q)
      path
    ∙ ap
        (λ q.
          y q (x.iseq % 2 ^ 32) (if x.mode % 2 ^ 32 == 0 then 1 else x.mode % 2 ^ 32) x.object_path)
        inum
    ∙ ap (λ q. y x.inum q (if x.mode % 2 ^ 32 == 0 then 1 else x.mode % 2 ^ 32) x.object_path) iseq
    ∙ ap (λ q. y x.inum x.iseq q x.object_path) kept

-- What ni_testbus_file_deserialize does with the file that ni_testbus_file_new made.
abbrev finish : Fields → Option ((ℕ × FileArray) × Store) → Option ((Option ℕ × FileArray) × Store)
unfolding load write
finish x r = elim r [
  | none ↦ none
  | some (made, s') ↦
      (load made.0 >>= λ file.
      write made.0 (some (with_fields x file)) >> return (some made.0, made.1))
        s'
]

finish_lem :
    (x : Fields) (f : ℕ) (array : FileArray) (s : Store) (made : File)
    → at s f ≡ some made
    → finish x (some ((f, array), s))
      ≡ some ((some f, array), record s { cells = set s.cells f (some (with_fields x made)) })
unfolding load write
finish_lem x f array s made h = ground (arith, h)

-- A file that is sent arrives as a new file of the array, and no other file changes.
pub deserialize_lem :
    (others : ℕ → ℕ) (array : FileArray) (x : File) (s : Store)
    → Accounts others array.files s
    → IsSendable x
    → let f = length s.cells in
      (s' : Store) × (deserialize (serialize x) array s
        ≡ some (
          (
            some f,
            record { next_id = (array.next_id + 1) % 2 ^ 32; files = array.files ++ f ∷ [] },
          ),
          s',
        ))
      × ((a : ℕ) → at s' a ≡ (if f == a then some (arrived array.next_id x) else at s a))
      × Accounts others (array.files ++ f ∷ []) s'
unfolding deserialize load write
deserialize_lem others array x s v h =
    let f = length s.cells in
    let (s1, run, eff, accounts) = file_new_lem others x.name array (x.mode % 2 ^ 32) s v in
    let made = new_file x.name array (x.mode % 2 ^ 32) s in
    let same = arrived_lem array x s h in
    let into : deserialize (serialize x) array s
        ≡ finish (sent x) (file_new x.name array (x.mode % 2 ^ 32) s) =
      rw (deserialize, sent_lem x) refl in
    let here : at s1 f ≡ some made = ground (arith, eff f) in
    let s2 : Store = record s1 { cells = set s1.cells f (some (with_fields (sent x) made)) } in
    let eff2 = λ (a : ℕ). at-write f a s1 made (some (with_fields (sent x) made)) here in
    (
      s2,
      into ∙ ap (finish (sent x)) run ∙ finish_lem (sent x) f _ s1 made here,
      λ a. ground (arith, eff2 a, eff a, same),
      record {
        counted = λ a. ground (arith, eff2 a, eff a, same, accounts.counted a);
        positive = λ a y e. ground (arith, eff2 a, eff a, same, accounts.positive a y, e);
      },
    )
