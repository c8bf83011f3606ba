-- ===== src/StringArray/Memory.antt =====
-- A string array holds a list of strings, and NULL behind it, whatever is done to it.
use testbus.Base.{
  ℕ, zero, suc, ◌+◌, ◌-◌, ◌*◌, ◌/◌, ◌%◌, ◌≤◌, ◌<◌, ◌≡◌, refl, ◌⊎◌, List, [], ◌∷◌, ◌++◌, none, arith,
  set, length, take, drop, replicate, length-append, take-length-append, drop-length-append,
  append_assoc, ◌==◌, Bool-cases, inl, inr, ap, sym, ◌∙◌,
}
use testbus.StringArray.{Cell, StringArray, resize, realloc, make_room, append}

abbrev pub nulls : ℕ → List Cell
nulls n = replicate n none

-- The array holds the strings `xs`, then `spare` pointers that are NULL: if it holds any string at
-- least one, and enough to fill the chunk that was begun.
pub record Holds (a : StringArray) (xs : List Cell) : Type 0 where
  pub spare : ℕ
  pub memory : a.cells ≡ xs ++ nulls spare
  pub counted : a.count ≡ length xs
  pub room : (length xs ≡ 0) ⊎ ((length xs + 15) / 16 * 16 < length xs + spare)

pub take_append : (xs ys : List Cell) (n : ℕ) → n ≡ length xs → take n (xs ++ ys) ≡ xs
take_append xs ys n e = ap (λ k. take k (xs ++ ys)) e ∙ take-length-append xs ys

pub drop_append : (xs ys : List Cell) (n : ℕ) → n ≡ length xs → drop n (xs ++ ys) ≡ ys
drop_append xs ys n e = ap (λ k. drop k (xs ++ ys)) e ∙ drop-length-append xs ys

drop-nulls : (n k m : ℕ) → m ≡ k - n → drop n (nulls k) ≡ nulls m
drop-nulls zero k m e = same k m (omega arith)
  where
    same : (k m : ℕ) → k ≡ m → nulls k ≡ nulls m
    same k m e = ap nulls e
drop-nulls (suc n) zero zero e = refl
drop-nulls (suc n) zero (suc m) e = absurd (omega arith)
drop-nulls (suc n) (suc k) m e = drop-nulls n k m (omega arith)

take-take : (m n : ℕ) (xs : List Cell) → m ≤ n → take m (take n xs) ≡ take m xs
take-take zero n xs h = refl
take-take (suc m) zero xs h = absurd (omega arith)
take-take (suc m) (suc n) [] h = refl
take-take (suc m) (suc n) (x ∷ xs) h = ap (◌∷◌ x) (take-take m n xs (omega arith))

abbrev pub array : ℕ → List Cell → StringArray
array n cs = record { count = n; cells = cs }

array_path : (m n : ℕ) (cs ds : List Cell) → m ≡ n → cs ≡ ds → array m cs ≡ array n ds
array_path m n cs ds e f = ap (λ k. array k cs) e ∙ ap (array n) f

realloc_lem :
    (a : StringArray) (xs : List Cell)
    → Holds a xs
    → realloc a a.count ≡ array (length xs) (xs ++ nulls 17)
unfolding realloc resize
realloc_lem a xs h =
    let size = a.count + 16 + 1 in
    let kept : take a.count (take size (a.cells ++ nulls size)) ≡ xs =
      take-take a.count size (a.cells ++ nulls size) (omega arith)
      ∙ ap (λ cs. take a.count (cs ++ nulls size)) h.memory
      ∙ ap (take a.count) (append_assoc xs (nulls h.spare) (nulls size))
      ∙ take_append xs (nulls h.spare ++ nulls size) a.count h.counted in
    array_path a.count (length xs) _ _ h.counted (
      ap (λ cs. cs ++ drop a.count (nulls size)) kept
      ∙ ap (λ cs. xs ++ cs) (drop-nulls a.count size 17 (omega arith)))

-- The strings stay, and there is room for another and the NULL behind it.
pub make_room_lem :
    (a : StringArray) (xs : List Cell)
    → Holds a xs
    → (k : ℕ) × (make_room a ≡ array (length xs) (xs ++ nulls (suc (suc k))))
      × ((length xs + 16) / 16 * 16 < length xs + 2 + k)
unfolding make_room
make_room_lem a xs h = elim (Bool-cases (a.count % 16 == 0)) [
  | inl full ↦ (15, rw full (realloc_lem a xs h), ground (arith, full, h.counted))
  | inr part ↦
      let two : 2 ≤ h.spare = ground (arith, part, h.counted, h.room) in
      (
        h.spare - 2,
        rw part (
            array_path a.count (length xs) a.cells _ h.counted
              (h.memory ∙ ap (λ k. xs ++ nulls k) (suc_suc h.spare two))),
        ground (arith, part, h.counted, h.room),
      )
]
  where
    suc_suc : (k : ℕ) → 2 ≤ k → k ≡ suc (suc (k - 2))
    suc_suc k h = omega arith

pub set-append :
    (xs ys : List Cell) (y s : Cell) (n : ℕ) → n ≡ length xs → set (xs ++ y ∷ ys) n s ≡ xs ++ s ∷ ys
set-append [] ys y s zero e = refl
set-append [] ys y s (suc n) e = absurd (omega arith)
set-append (x ∷ xs) ys y s zero e = absurd (omega arith)
set-append (x ∷ xs) ys y s (suc n) e = ap (◌∷◌ x) (set-append xs ys y s n (omega arith))

-- An array that holds the strings, from what is known of its parts.
pub holds :
    (a : StringArray) (n k : ℕ) (cs xs : List Cell)
    → a ≡ array n cs
    → cs ≡ xs ++ nulls (suc k)
    → n ≡ length xs
    → (length xs + 15) / 16 * 16 < length xs + suc k
    → Holds a xs
holds a n k cs xs e f g h = record {
  spare = suc k;
  memory = ap (λ r. r.cells) e ∙ f;
  counted = ap (λ r. r.count) e ∙ g;
  room = inr h;
}

pub append-Holds :
    (a : StringArray) (xs : List Cell) (s : Cell) → Holds a xs → Holds (append a s) (xs ++ s ∷ [])
unfolding append
append-Holds a xs s h =
    let (k, made, room) = make_room_lem a xs h in
    let len = length-append xs (s ∷ []) in
    holds _ (suc (length xs)) k (set (xs ++ nulls (suc (suc k))) (length xs) s) (xs ++ s ∷ [])
      (ap (λ r. array (suc r.count) (set r.cells r.count s)) made)
      (set-append xs (nulls (suc k)) none s (length xs) refl
        ∙ sym (append_assoc xs (s ∷ []) (nulls (suc k))))
      (omega (arith, len)) (omega (arith, len, room))
