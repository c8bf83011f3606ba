-- ===== src/StringArray/Match.antt =====
-- ni_string_array_remove_match compacts the array in place.
use testbus.Base.{
  ℕ, zero, suc, ◌+◌, ◌-◌, ◌≡◌, refl, List, [], ◌∷◌, ◌++◌, none, some, true, false, ◌&&◌, arith,
  CString, str_eq, get_or, set, length, drop, map, length-append, append-nil, append_assoc,
  if◌then◌else◌, ◌==◌, ltb, Bool-cases, inl, inr, ap, subst, sym, ◌∙◌,
}
use testbus.StringArray.{Cell, StringArray, matches, kill, finish, remove_match}
use testbus.StringArray.Memory.{nulls, Holds, take_append, drop_append, array}

-- The strings of a list, none of them NULL.
abbrev pub strings : List CString → List Cell
strings = map some

-- The list without its first `r` strings that equal `str`.
unfoldable pub survivors : CString → ℕ → List CString → List CString
survivors str r [] = []
survivors str r (y ∷ ys) = elim (ltb 0 r && str_eq y str) [
  | true ↦ survivors str (r - 1) ys
  | false ↦ y ∷ survivors str r ys
]

read_at :
    (kept gone rest : List Cell) (y : Cell) (i : ℕ)
    → i ≡ length kept + length gone
    → get_or (kept ++ (gone ++ (y ∷ rest))) i none ≡ y
read_at [] [] rest y zero e = refl
read_at [] [] rest y (suc i) e = absurd (omega arith)
read_at [] (g ∷ gs) rest y zero e = absurd (omega arith)
read_at [] (g ∷ gs) rest y (suc i) e = read_at [] gs rest y i (omega arith)
read_at (k ∷ ks) gone rest y zero e = absurd (omega arith)
read_at (k ∷ ks) gone rest y (suc i) e = read_at ks gone rest y i (omega arith)

store_at :
    (kept gone rest : List Cell) (y : Cell) (j : ℕ)
    → j ≡ length kept
    → (gone' : List Cell) × (length gone' ≡ length gone)
      × (set (kept ++ (gone ++ (y ∷ rest))) j y ≡ (kept ++ y ∷ []) ++ (gone' ++ rest))
store_at [] [] rest y zero e = ([], refl, refl)
store_at [] (g ∷ gs) rest y zero e = (
  gs ++ y ∷ [],
  omega (arith, length-append gs (y ∷ [])),
  ap (◌∷◌ y) (sym (append_assoc gs (y ∷ []) rest)),
)
store_at [] gone rest y (suc j) e = absurd (omega arith)
store_at (k ∷ ks) gone rest y zero e = absurd (omega arith)
store_at (k ∷ ks) gone rest y (suc j) e =
    let (gone', len, same) = store_at ks gone rest y j (omega arith) in
    (gone', len, ap (◌∷◌ k) same)

abbrev triple : (j k : ℕ) (cells : List Cell) → ℕ × ℕ × List Cell
triple j k cells = (j, k, cells)

triple_path :
    (j j' k k' : ℕ) (cs ds : List Cell)
    → j ≡ j'
    → k ≡ k'
    → cs ≡ ds
    → ◌≡◌ {A = ℕ × ℕ × List Cell} (j, k, cs) (j', k', ds)
triple_path j j' k k' cs ds e f g =
    ap (λ j. (j, k, cs)) e ∙ ap (λ k. (j', k, cs)) f ∙ ap (λ cs. (j', k', cs)) g

-- The loop keeps the survivors, and has written them over the front of the array.
kill_lem :
    (str : CString) (m : ℕ) (ys : List CString) (kept gone zs : List Cell) (n i j k r : ℕ)
    → n ≡ length ys
    → j ≡ length kept
    → k ≡ length gone
    → i ≡ j + k
    → r ≡ m - k
    → (gone' : List Cell) × (let kept' = kept ++ strings (survivors str r ys) in
        (kill str m n i j k (kept ++ (gone ++ (strings ys ++ zs)))
          ≡ (length kept', length gone', kept' ++ (gone' ++ zs)))
        × (length kept' + length gone' ≡ length kept + length gone + length ys))
unfolding kill survivors matches
kill_lem str m [] kept gone zs zero i j k r en ej ek ei er = (
  gone,
  (rw (append-nil kept) (triple_path _ _ _ _ _ _ ej ek refl), rw (append-nil kept) (omega arith)),
)
kill_lem str m [] kept gone zs (suc n) i j k r en ej ek ei er = absurd (omega arith)
kill_lem str m (y ∷ ys) kept gone zs zero i j k r en ej ek ei er = absurd (omega arith)
kill_lem str m (y ∷ ys) kept gone zs (suc n) i j k r en ej ek ei er =
    let here = read_at kept gone (strings ys ++ zs) (some y) i (omega (arith, ei, ej, ek)) in
    let more : ltb 0 r ≡ ltb k m = ground (arith, er) in
    elim (Bool-cases (ltb k m && str_eq y str)) [
      | inl yes' ↦
          let (gone', both) =
            kill_lem str m ys kept (gone ++ some y ∷ []) zs n (i + 1) j (k + 1) (r - 1)
              (omega (arith, en)) ej (omega (arith, ek, length-append gone (some y ∷ [])))
              (omega (arith, ei)) (omega (arith, er)) in
          rw (kill, survivors, here, more, yes')
            (
              gone',
              (
                ap (λ cs. kill str m n (i + 1) j (k + 1) (kept ++ cs))
                      (sym (append_assoc gone (some y ∷ []) (strings ys ++ zs)))
                    ∙ both.0,
                omega (arith, both.1, length-append gone (some y ∷ [])),
              ),
            )
      | inr no' ↦
          let (gone1, len1, stored) = store_at kept gone (strings ys ++ zs) (some y) j ej in
          let (gone', both) =
            kill_lem str m ys (kept ++ some y ∷ []) gone1 zs n (i + 1) (j + 1) k r
              (omega (arith, en)) (omega (arith, ej, length-append kept (some y ∷ [])))
              (omega (arith, ek, len1)) (omega (arith, ei)) er in
          let later = append_assoc kept (some y ∷ []) (strings (survivors str r ys)) in
          rw (kill, survivors, here, more, no')
            (
              gone',
              (
                ap
                      (λ c.
                        kill str m n (i + 1) (j + 1) k
                          (set (kept ++ (gone ++ (some y ∷ (strings ys ++ zs)))) j c))
                      here
                    ∙ ap (kill str m n (i + 1) (j + 1) k) stored
                    ∙ both.0
                    ∙ ap (λ cs. triple (length cs) (length gone') (cs ++ (gone' ++ zs))) later,
                ap (λ cs. length cs + length gone') (sym later)
                    ∙ omega (arith, both.1, len1, length-append kept (some y ∷ [])),
              ),
            )
    ]

nulls-append : (m n k : ℕ) → k ≡ m + n → nulls m ++ nulls n ≡ nulls k
nulls-append zero n k e = again n k (omega arith)
  where
    again : (n k : ℕ) → n ≡ k → nulls n ≡ nulls k
    again n k e = ap nulls e
nulls-append (suc m) n zero e = absurd (omega arith)
nulls-append (suc m) n (suc k) e = ap (◌∷◌ none) (nulls-append m n k (omega arith))

pub length-strings : (ys : List CString) → length (strings ys) ≡ length ys
length-strings [] = refl
length-strings (y ∷ ys) = ap suc (length-strings ys)

finish_lem :
    (kept gone zs : List Cell)
    → finish (length kept, length gone, kept ++ (gone ++ zs))
      ≡ (length gone, array (length kept) (kept ++ nulls (length gone) ++ zs))
unfolding finish
finish_lem kept gone zs =
    ap
      (λ cs. (
        length gone,
        array (length kept)
            (cs ++ nulls (length gone) ++ drop (length kept + length gone) (kept ++ (gone ++ zs))),
      ))
      (take_append kept (gone ++ zs) (length kept) refl)
    ∙ ap (λ cs. (length gone, array (length kept) (kept ++ nulls (length gone) ++ cs)))
        (ap (drop (length kept + length gone)) (sym (append_assoc kept gone zs))
          ∙ drop_append (kept ++ gone) zs (length kept + length gone)
              (sym (length-append kept gone)))

limited :
    (a : StringArray) (ys : List CString) (str : CString) (m : ℕ)
    → Holds a (strings ys)
    → let r = finish (kill str m a.count 0 0 0 a.cells) in
      Holds r.1 (strings (survivors str m ys)) × (r.0 + length (survivors str m ys) ≡ length ys)
limited a ys str m h =
    let (gone, both) =
      kill_lem str m ys [] [] (nulls h.spare) a.count 0 0 0 m (h.counted ∙ length-strings ys) refl
        refl (omega arith) (omega arith) in
    let left = survivors str m ys in
    let kept = strings left in
    let whole : finish (kill str m a.count 0 0 0 a.cells)
        ≡ (length gone, array (length kept) (kept ++ nulls (length gone) ++ nulls h.spare)) =
      ap (λ cs. finish (kill str m a.count 0 0 0 cs)) h.memory
      ∙ ap finish both.0
      ∙ finish_lem kept gone (nulls h.spare) in
    let lens = length-strings left in
    let all = length-strings ys in
    (
      record {
        spare = length gone + h.spare;
        memory =
            ap (λ r. r.1.cells) whole
            ∙ append_assoc kept (nulls (length gone)) (nulls h.spare)
            ∙ ap (λ cs. kept ++ cs)
                (nulls-append (length gone) h.spare (length gone + h.spare) refl);
        counted = ap (λ r. r.1.count) whole;
        room = ground (arith, h.room, both.1, all);
      },
      ap (λ r. r.0 + length left) whole ∙ omega (arith, both.1, lens),
    )

-- ni_string_array_remove_match, on an array with no NULL among its strings, removes the first
-- `maxkill` strings that equal `str`, or all of them if `maxkill` is 0, keeps the others in their
-- order, counts what it removed, and leaves NULL behind the last string.
pub remove_match_lem :
    (a : StringArray) (ys : List CString) (str : CString) (maxkill : ℕ)
    → Holds a (strings ys)
    → let r = remove_match a str maxkill in
      let left = survivors str (if maxkill == 0 then length ys else maxkill) ys in
      Holds r.1 (strings left) × (r.0 + length left ≡ length ys)
unfolding remove_match
remove_match_lem a ys str maxkill h =
    subst
      (λ m.
        let r = finish (kill str m a.count 0 0 0 a.cells) in
        let left = survivors str (if maxkill == 0 then length ys else maxkill) ys in
        Holds r.1 (strings left) × (r.0 + length left ≡ length ys))
      (ap (λ n. if maxkill == 0 then n else maxkill) (sym (h.counted ∙ length-strings ys)))
      (limited a ys str (if maxkill == 0 then length ys else maxkill) h)
