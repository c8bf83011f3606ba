-- ===== src/StringArray/Edit.antt =====
-- Insertion and removal in the middle of a string array.
use testbus.Base.{
  ℕ, zero, suc, ◌+◌, ◌-◌, ◌≤◌, ◌<◌, get_or, true, false, length-set, if◌then◌else◌, ◌≡◌, refl, List,
  [], ◌∷◌, ◌++◌, none, arith, set, length, take, drop, length-append, append-nil, append_assoc, ltb,
  leb, leb→le, Bool-cases, inl, inr, ap, sym, ◌∙◌,
}
use testbus.StringArray.{
  set_at, at, Cell, StringArray, append, memmove, insert_in, insert, remove_index,
}
use testbus.StringArray.Memory.{nulls, Holds, make_room_lem, array, set-append, holds, append-Holds}
use testbus.StringArray.Shift.{take_all, split, shifted_up, shifted_down, drop-split}

set_inside :
    (left right zs : List Cell) (x s : Cell) (pos : ℕ)
    → pos ≡ length left
    → set ((left ++ x ∷ right) ++ zs) pos s ≡ (left ++ s ∷ right) ++ zs
set_inside left right zs x s pos e =
    ap (λ cs. set cs pos s) (append_assoc left (x ∷ right) zs)
    ∙ set-append left (right ++ zs) x s pos e
    ∙ sym (append_assoc left (s ∷ right) zs)

insert-Holds :
    (a : StringArray) (xs : List Cell) (pos : ℕ) (s : Cell)
    → Holds a xs
    → Holds (insert a pos s) (take pos xs ++ s ∷ drop pos xs)
unfolding insert insert_in
insert-Holds a xs pos s h =
    let (k, made, room) = make_room_lem a xs h in
    elim (Bool-cases (leb (length xs) pos)) [
      | inl behind ↦
          let (t, d) = take_all xs pos (leb→le _ _ behind) in
          rw (t, d)
            (holds _ (suc (length xs)) k (set (xs ++ nulls (suc (suc k))) (length xs) s)
              (xs ++ s ∷ []) (ap (λ r. insert_in r pos s) made ∙ rw behind refl)
              (set-append xs (nulls (suc k)) none s (length xs) refl
                ∙ sym (append_assoc xs (s ∷ []) (nulls (suc k))))
              (omega (arith, length-append xs (s ∷ [])))
              (omega (arith, length-append xs (s ∷ []), room)))
      | inr inside ↦
          let (x, rest, whole, right, len, sum) = split xs pos (ground (arith, inside)) in
          let left = take pos xs in
          let zs = nulls (suc k) in
          let total = length-append left (s ∷ x ∷ rest) in
          let moved = shifted_up xs left rest zs x pos whole len sum in
          rw right (
            holds _ (suc (length xs)) k (set (left ++ x ∷ x ∷ rest ++ zs) pos s)
              (left ++ s ∷ x ∷ rest)
              (ap (λ r. insert_in r pos s) made
                ∙ rw inside (ap (λ cs. array (suc (length xs)) (set cs pos s)) moved))
              (set_inside left (x ∷ rest) zs x s pos (sym len)) (omega (arith, total, len, sum))
              (omega (arith, total, len, sum, room)))
    ]

remove-Holds :
    (a : StringArray) (xs : List Cell) (pos : ℕ)
    → Holds a xs
    → Holds (remove_index a pos).1 (take pos xs ++ drop (suc pos) xs)
      × ((remove_index a pos).0 ≡ ltb pos (length xs))
unfolding remove_index
remove-Holds a xs pos h = elim (Bool-cases (leb a.count pos)) [
  | inl behind ↦
      let (t, d) = take_all xs pos (ground (arith, behind, h.counted)) in
      let (t', d') = take_all xs (suc pos) (ground (arith, behind, h.counted)) in
      rw behind (rw (t, d', append-nil xs) h, ground (arith, behind, h.counted))
  | inr inside ↦
      let (x, rest, whole, right, len, sum) = split xs pos (ground (arith, inside, h.counted)) in
      let left = take pos xs in
      let one : 1 ≤ h.spare = ground (arith, inside, h.counted, h.room) in
      let k = h.spare - 1 in
      let zs = nulls k in
      let total = length-append left rest in
      rw (inside, h.counted)
        (
          rw (drop-split xs pos x rest right) (
              holds _ (length xs - 1) (suc k) (left ++ rest ++ none ∷ none ∷ zs) (left ++ rest)
                (ap (array (length xs - 1)) (
                  ap (λ cs. memmove pos (pos + 1) (length xs - pos) cs)
                    (h.memory ∙ ap (λ n. xs ++ nulls n) (pred h.spare one))
                  ∙ shifted_down xs left rest zs x pos whole len sum))
                refl (omega (arith, total, len, sum))
                (ground (arith, total, len, sum, h.room, one))),
          ground (arith, inside, h.counted),
        )
]
  where
    pred : (n : ℕ) → 1 ≤ n → n ≡ suc (n - 1)
    pred n h = omega arith

set-append_left :
    (xs ys : List Cell) (pos : ℕ) (s : Cell)
    → pos < length xs
    → (set (xs ++ ys) pos s ≡ set xs pos s ++ ys) × (get_or (set xs pos s ++ ys) pos none ≡ s)
set-append_left [] ys pos s h = absurd (omega arith)
set-append_left (x ∷ xs) ys zero s h = (refl, refl)
set-append_left (x ∷ xs) ys (suc pos) s h =
    let (same, there) = set-append_left xs ys pos s (omega arith) in (ap (◌∷◌ x) same, there)

set_behind : (xs : List Cell) (pos : ℕ) (s : Cell) → length xs ≤ pos → set xs pos s ≡ xs
set_behind [] pos s h = refl
set_behind (x ∷ xs) zero s h = absurd (omega arith)
set_behind (x ∷ xs) (suc pos) s h = ap (◌∷◌ x) (set_behind xs pos s (omega arith))

set_at-Holds :
    (a : StringArray) (xs : List Cell) (pos : ℕ) (s : Cell)
    → Holds a xs
    → Holds (set_at a pos s).1 (set xs pos s)
      × (at (set_at a pos s).1 pos ≡ (if ltb pos (length xs) then s else none))
unfolding set_at at
set_at-Holds a xs pos s h = elim (Bool-cases (leb a.count pos)) [
  | inl behind ↦
      let le : length xs ≤ pos = ground (arith, behind, h.counted) in
      let no' : ltb pos (length xs) ≡ false = ground (arith, le) in
      rw (behind, set_behind xs pos s le, no') (h, rw behind refl)
  | inr inside ↦
      let lt : pos < length xs = ground (arith, inside, h.counted) in
      let yes' : ltb pos (length xs) ≡ true = ground (arith, lt) in
      let (same, there) = set-append_left xs (nulls h.spare) pos s lt in
      let len = length-set xs pos s in
      rw (inside, yes')
        (
          record {
            spare = h.spare;
            memory = ap (λ cs. set cs pos s) h.memory ∙ same;
            counted = h.counted ∙ sym len;
            room = ground (arith, len, h.room);
          },
          rw inside (
              ap (λ cs. get_or (set cs pos s) pos none) h.memory
              ∙ ap (λ cs. get_or cs pos none) same
              ∙ there),
        )
]

-- A string array of C and the list that it holds: appending, inserting, removing and setting by
-- index do to the list what they say, and leave the array with the NULL pointers that it needs behind
-- the last string. Insertion behind the end appends; removing there fails, removing and setting
-- there change no string, and reading there gives NULL.
pub edit_lem :
    (a : StringArray) (xs : List Cell) (pos : ℕ) (s : Cell)
    → Holds a xs
    → Holds (append a s) (xs ++ s ∷ [])
      × Holds (insert a pos s) (take pos xs ++ s ∷ drop pos xs)
      × Holds (remove_index a pos).1 (take pos xs ++ drop (suc pos) xs)
      × ((remove_index a pos).0 ≡ ltb pos (length xs))
      × Holds (set_at a pos s).1 (set xs pos s)
      × (at (set_at a pos s).1 pos ≡ (if ltb pos (length xs) then s else none))
edit_lem a xs pos s h =
    let (removed, ok) = remove-Holds a xs pos h in
    let (changed, read) = set_at-Holds a xs pos s h in
    (append-Holds a xs s h, insert-Holds a xs pos s h, removed, ok, changed, read)
