-- ===== src/Tests/StringArrays.antt =====
-- String arrays at small inputs.
use testbus.Base.{
  set, suc, ◌+◌, ◌-◌, ◌≡◌, refl, List, [], ◌∷◌, ◌++◌, none, some, false, CString, str_eq, length,
  take, drop, if◌then◌else◌, ◌==◌, ltb, min, inl,
}
use testbus.StringArray.{
  set_at, at, StringArray, init, resize, realloc, make_room, append, memmove, insert_in, insert,
  remove_index, matches, kill, finish, remove_match, Sorted, comm, is_uniq_at, is_uniq_from,
  is_uniq,
}
use testbus.StringArray.Memory.{Holds, append-Holds}
use testbus.StringArray.Edit.{edit_lem}
use testbus.StringArray.Match.{strings, survivors, remove_match_lem}
use testbus.StringArray.Comm.{times, HoldsAll, comm_lem}

abbrev x : CString
x = b'x' ∷ []

abbrev y : CString
y = b'y' ∷ []

-- x, y, x
abbrev xyx : List CString
xyx = x ∷ y ∷ x ∷ []

abbrev array : StringArray
array = append (append (append init (some x)) (some y)) (some x)

init-Holds : Holds init []
init-Holds = record { spare = 0; memory = refl; counted = refl; room = inl refl }

array-Holds : Holds array (strings xyx)
array-Holds =
    append-Holds (append (append init (some x)) (some y)) (some x ∷ some y ∷ []) (some x) (
      append-Holds (append init (some x)) (some x ∷ []) (some y)
        (append-Holds init [] (some x) init-Holds))

insert-y : take 5 (insert array 1 (some y)).cells ≡ some x ∷ some y ∷ some y ∷ some x ∷ none ∷ []
unfolding insert insert_in append make_room realloc resize memmove
insert-y = refl

edit_lem_example :
    Holds (append array (some y)) (strings xyx ++ some y ∷ [])
    × Holds (insert array 1 (some y)) (take 1 (strings xyx) ++ some y ∷ drop 1 (strings xyx))
    × Holds (remove_index array 1).1 (take 1 (strings xyx) ++ drop (suc 1) (strings xyx))
    × ((remove_index array 1).0 ≡ ltb 1 (length (strings xyx)))
    × Holds (set_at array 1 (some y)).1 (set (strings xyx) 1 (some y))
    × (at (set_at array 1 (some y)).1 1 ≡ (if ltb 1 (length (strings xyx)) then some y else none))
edit_lem_example = edit_lem array (strings xyx) 1 (some y) array-Holds

remove-x : take 2 (remove_match array x 0).1.cells ≡ some y ∷ none ∷ []
unfolding str_eq remove_match kill finish matches append make_room realloc resize
remove-x = refl

remove_match_lem_example :
    let r = remove_match array x 1 in
    let left = survivors x (if 1 == 0 then length xyx else 1) xyx in
    Holds r.1 (strings left) × (r.0 + length left ≡ length xyx)
remove_match_lem_example = remove_match_lem array xyx x 1 array-Holds

abbrev empty : Sorted
empty = record { uniq_a = init; uniq_b = init; common = init }

-- x, y, x against x
abbrev single : StringArray
single = append init (some x)

comm_lem_example :
    (us' : List CString) × (vs' : List CString) × (cs' : List CString) × HoldsAll
      (comm array single empty)
      us'
      vs'
      cs'
    × ((n : CString)
        → (times n us' ≡ times n xyx - times n (x ∷ []))
          × (times n vs' ≡ times n (x ∷ []) - times n xyx)
          × (times n cs' ≡ min (times n xyx) (times n (x ∷ []))))
comm_lem_example =
    comm_lem array single empty xyx (x ∷ []) [] [] [] array-Holds
      (append-Holds init [] (some x) init-Holds) (init-Holds, init-Holds, init-Holds)

-- x and y differ, but the answer is no.
abbrev xy : StringArray
xy = append (append init (some x)) (some y)

xy-not_uniq : is_uniq xy ≡ false
unfolding str_eq is_uniq is_uniq_from is_uniq_at matches append make_room realloc resize
xy-not_uniq = refl
