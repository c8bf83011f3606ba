-- ===== src/StringArray/Comm.antt =====
-- ni_string_array_comm sorts two arrays into what is in one, in the other and in both.
use testbus.Base.{
  ℕ, ◌+◌, ◌-◌, ◌≡◌, refl, ◌⊎◌, List, [], ◌∷◌, ◌++◌, none, some, true, arith, min, CString, str_eq,
  str_eq_iff, str_eq_refl, length, take, append_assoc, append-nil, if◌then◌else◌, leb, Bool-cases,
  inl, inr, ap, subst, sym, ◌∙◌,
}
use testbus.StringArray.{
  Cell, StringArray, append, matches, clear_match, Sorted, comm_b, comm_a, comm, is_uniq_at,
  is_uniq_from, is_uniq,
}
use testbus.StringArray.Memory.{nulls, Holds, take_append, append-Holds}
use testbus.StringArray.Match.{strings}

-- How often a string stands in a list.
unfoldable pub times : CString → List CString → ℕ
times n [] = 0
times n (x ∷ xs) = (if str_eq x n then 1 else 0) + times n xs

unfoldable pub times_in : CString → List Cell → ℕ
times_in n [] = 0
times_in n (none ∷ cs) = times_in n cs
times_in n (some x ∷ cs) = (if str_eq x n then 1 else 0) + times_in n cs

times_in-strings : (n : CString) (xs : List CString) → times_in n (strings xs) ≡ times n xs
unfolding times_in times
times_in-strings n [] = refl
times_in-strings n (x ∷ xs) = omega (arith, times_in-strings n xs)

-- A string that is found is cleared, and only that one.
clear_lem :
    (x : CString) (b : List Cell)
    → ((clear_match x b ≡ none) × (times_in x b ≡ 0))
      ⊎ ((b' : List Cell) × (clear_match x b ≡ some b')
          × ((n : CString) → times_in n b ≡ (if str_eq x n then 1 else 0) + times_in n b'))
unfolding clear_match matches times_in
clear_lem x [] = inl (refl, refl)
clear_lem x (none ∷ cs) = elim (clear_lem x cs) [
  | inl (miss, zero') ↦ inl (rw miss refl, zero')
  | inr (b', hit, counts) ↦ inr (none ∷ b', rw hit refl, counts)
]
clear_lem x (some y ∷ cs) = elim (Bool-cases (str_eq y x)) [
  | inl same ↦ inr (
    none ∷ cs,
    rw same refl,
    λ n. ap (λ z. (if str_eq z n then 1 else 0) + times_in n cs) ((str_eq_iff y x).0 same),
  )
  | inr other ↦ elim (clear_lem x cs) [
    | inl (miss, zero') ↦ inl (rw (other, miss) refl, rw other (omega (arith, zero')))
    | inr (b', hit, counts) ↦ inr (some y ∷ b', rw (other, hit) refl, λ n. omega (arith, counts n))
  ]
]

-- An array that holds strings, and one more of them.
add_lem :
    (a : StringArray) (xs : List CString) (x : CString)
    → Holds a (strings xs)
    → Holds (append a (some x)) (strings (xs ++ x ∷ []))
add_lem a xs x h =
    subst (Holds (append a (some x))) (sym (map-append xs)) (append-Holds a (strings xs) (some x) h)
  where
    map-append : (xs : List CString) → strings (xs ++ x ∷ []) ≡ strings xs ++ some x ∷ []
    map-append [] = refl
    map-append (y ∷ ys) = ap (◌∷◌ (some y)) (map-append ys)

-- The three arrays hold these strings.
abbrev pub HoldsAll : Sorted → List CString → List CString → List CString → Type 0
HoldsAll out us vs cs =
    Holds out.uniq_a (strings us) × Holds out.uniq_b (strings vs) × Holds out.common (strings cs)

comm_b_lem :
    (b : List Cell) (out : Sorted) (us vs cs : List CString)
    → HoldsAll out us vs cs
    → (vs' : List CString) × HoldsAll (comm_b b out) us (vs ++ vs') cs
      × ((n : CString) → times n vs' ≡ times_in n b)
unfolding comm_b times times_in
comm_b_lem [] out us vs cs h =
    ([], subst (λ ws. HoldsAll out us ws cs) (sym (append-nil vs)) h, λ n. refl)
comm_b_lem (none ∷ b) out us vs cs h = comm_b_lem b out us vs cs h
comm_b_lem (some x ∷ b) out us vs cs h =
    let (vs', holds, counts) =
      comm_b_lem b (record out { uniq_b = append out.uniq_b (some x) }) us (vs ++ x ∷ []) cs
        (h.0, add_lem out.uniq_b vs x h.1, h.2) in
    (
      x ∷ vs',
      subst
          (λ ws. HoldsAll (comm_b b (record out { uniq_b = append out.uniq_b (some x) })) us ws cs)
          (append_assoc vs (x ∷ []) vs') holds,
      λ n. omega (arith, counts n),
    )

-- What the loops add to the arrays, by how often each string is added.
abbrev Sorts : List CString → List Cell → List CString → List CString → List CString → Type 0
Sorts xs b us vs cs =
    (n : CString)
    → (times n us ≡ times n xs - times_in n b)
      × (times n vs ≡ times_in n b - times n xs)
      × (times n cs ≡ min (times n xs) (times_in n b))

comm_a_lem :
    (xs : List CString) (b : List Cell) (out : Sorted) (us vs cs : List CString)
    → HoldsAll out us vs cs
    → (us' : List CString) × (vs' : List CString) × (cs' : List CString) × HoldsAll
        (comm_a (strings xs) b out)
        (us ++ us')
        (vs ++ vs')
        (cs ++ cs')
      × Sorts xs b us' vs' cs'
unfolding comm_a times
comm_a_lem [] b out us vs cs h =
    let (vs', holds, counts) = comm_b_lem b out us vs cs h in
    (
      [],
      vs',
      [],
      rw (append-nil us, append-nil cs) holds,
      λ n. (omega arith, omega (arith, counts n), omega arith),
    )
comm_a_lem (x ∷ xs) b out us vs cs h = elim (clear_lem x b) [
  | inl (miss, zero') ↦
      let out' = record out { uniq_a = append out.uniq_a (some x) } in
      let (us', vs', cs', holds, counts) =
        comm_a_lem xs b out' (us ++ x ∷ []) vs cs (add_lem out.uniq_a us x h.0, h.1, h.2) in
      rw (comm_a, miss)
        (
          x ∷ us',
          vs',
          cs',
          subst (λ ws. HoldsAll (comm_a (strings xs) b out') ws (vs ++ vs') (cs ++ cs'))
              (append_assoc us (x ∷ []) us') holds,
          λ n.
              let (u, v, c) = counts n in
              let gone : str_eq x n ≡ true → times_in n b ≡ 0 =
                λ e. ap (λ m. times_in m b) (sym ((str_eq_iff x n).0 e)) ∙ zero' in
              (ground (arith, u, gone), ground (arith, v, gone), ground (arith, c, gone)),
        )
  | inr (b', hit, fewer) ↦
      let out' = record out { common = append out.common (some x) } in
      let (us', vs', cs', holds, counts) =
        comm_a_lem xs b' out' us vs (cs ++ x ∷ []) (h.0, h.1, add_lem out.common cs x h.2) in
      rw (comm_a, hit)
        (
          us',
          vs',
          x ∷ cs',
          subst (λ ws. HoldsAll (comm_a (strings xs) b' out') (us ++ us') (vs ++ vs') ws)
              (append_assoc cs (x ∷ []) cs') holds,
          λ n.
              let (u, v, c) = counts n in
              (omega (arith, u, fewer n), omega (arith, v, fewer n), omega (arith, c, fewer n)),
        )
]

live_lem :
    (a : StringArray) (xs : List CString) → Holds a (strings xs) → take a.count a.cells ≡ strings xs
live_lem a xs h =
    ap (take a.count) h.memory ∙ take_append (strings xs) (nulls h.spare) a.count h.counted

-- ni_string_array_comm, on arrays of strings none of which is NULL, adds to `uniq_a`, `uniq_b` and
-- `common` what is in the first array only, in the second only and in both, counted: of a string
-- that is m times in `a` and n times in `b`, it adds m - n to the first, n - m to the second (0
-- where that is negative), and the lesser of m and n to the third. The strings need not differ.
pub comm_lem :
    (a b : StringArray) (out : Sorted) (xs ys us vs cs : List CString)
    → Holds a (strings xs)
    → Holds b (strings ys)
    → HoldsAll out us vs cs
    → (us' : List CString) × (vs' : List CString) × (cs' : List CString) × HoldsAll
        (comm a b out)
        (us ++ us')
        (vs ++ vs')
        (cs ++ cs')
      × ((n : CString)
          → (times n us' ≡ times n xs - times n ys)
            × (times n vs' ≡ times n ys - times n xs)
            × (times n cs' ≡ min (times n xs) (times n ys)))
unfolding comm
comm_lem a b out xs ys us vs cs ha hb h =
    let (us', vs', cs', holds, counts) = comm_a_lem xs (strings ys) out us vs cs h in
    (
      us',
      vs',
      cs',
      subst (λ r. HoldsAll r (us ++ us') (vs ++ vs') (cs ++ cs'))
          (ap (λ ds. comm_a ds (strings ys) out) (sym (live_lem a xs ha))
            ∙ ap (λ ds. comm_a (take a.count a.cells) ds out) (sym (live_lem b ys hb)))
          holds,
      λ n.
          let (u, v, c) = counts n in
          let t = times_in-strings n ys in
          (omega (arith, u, t), omega (arith, v, t), omega (arith, c, t)),
    )

at_most_one : (xs : List CString) → is_uniq_from (strings xs) ≡ leb (length xs) 1
unfolding is_uniq_from is_uniq_at matches
at_most_one [] = refl
at_most_one (x ∷ []) = refl
at_most_one (x ∷ y ∷ ys) = rw (str_eq_refl x) (ground arith)

-- ni_string_array_is_uniq, whose inner loop compares a string with itself, says yes exactly for
-- arrays of one string at most, whatever the strings are, if none is NULL.
pub is_uniq_lem :
    (a : StringArray) (xs : List CString) → Holds a (strings xs) → is_uniq a ≡ leb (length xs) 1
unfolding is_uniq
is_uniq_lem a xs h = ap is_uniq_from (live_lem a xs h) ∙ at_most_one xs
