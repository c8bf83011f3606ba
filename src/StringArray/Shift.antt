-- ===== src/StringArray/Shift.antt =====
-- The memmove calls that open and close a gap in a string array.
use testbus.Base.{
  ℕ, zero, suc, ◌+◌, ◌-◌, ◌≤◌, ◌<◌, ◌≡◌, refl, List, [], ◌∷◌, ◌++◌, none, arith, length, take, drop,
  append_assoc, ap, sym, ◌∙◌,
}
use testbus.StringArray.{Cell, memmove}
use testbus.StringArray.Memory.{take_append, drop_append}

pub take_all : (xs : List Cell) (n : ℕ) → length xs ≤ n → (take n xs ≡ xs) × (drop n xs ≡ [])
take_all [] zero h = (refl, refl)
take_all [] (suc n) h = (refl, refl)
take_all (x ∷ xs) zero h = absurd (omega arith)
take_all (x ∷ xs) (suc n) h = let (t, d) = take_all xs n (omega arith) in (ap (◌∷◌ x) t, d)

-- The string at `n`, and what is on either side of it.
pub split :
    (xs : List Cell) (n : ℕ)
    → n < length xs
    → (x : Cell) × (rest : List Cell) × (xs ≡ take n xs ++ x ∷ rest)
      × (drop n xs ≡ x ∷ rest)
      × (length (take n xs) ≡ n)
      × (n + suc (length rest) ≡ length xs)
split [] n h = absurd (omega arith)
split (y ∷ ys) zero h = (y, ys, refl, refl, refl, omega arith)
split (y ∷ ys) (suc n) h =
    let (x, rest, whole, right, len, sum) = split ys n (omega arith) in
    (x, rest, ap (◌∷◌ y) whole, right, ap suc len, omega (arith, sum))

shift_up :
    (left right zs : List Cell) (x z : Cell) (src dst n : ℕ)
    → src ≡ length left
    → dst ≡ suc src
    → n ≡ suc (length right)
    → memmove dst src n (left ++ x ∷ right ++ z ∷ zs) ≡ left ++ x ∷ x ∷ right ++ zs
unfolding memmove
shift_up [] right zs x z zero (suc zero) (suc n) e f g =
    ap (λ cs. x ∷ x ∷ cs ++ drop (suc n) (right ++ z ∷ zs))
      (take_append right (z ∷ zs) n (omega arith))
    ∙ ap (λ cs. x ∷ x ∷ right ++ cs) (behind right n (omega arith))
  where
    behind : (right : List Cell) (n : ℕ) → n ≡ length right → drop (suc n) (right ++ z ∷ zs) ≡ zs
    behind [] zero e = refl
    behind [] (suc n) e = absurd (omega arith)
    behind (r ∷ rs) zero e = absurd (omega arith)
    behind (r ∷ rs) (suc n) e = behind rs n (omega arith)
shift_up [] right zs x z zero zero n e f g = absurd (omega arith)
shift_up [] right zs x z zero (suc (suc dst)) n e f g = absurd (omega arith)
shift_up [] right zs x z zero (suc zero) zero e f g = absurd (omega arith)
shift_up [] right zs x z (suc src) dst n e f g = absurd (omega arith)
shift_up (l ∷ left) right zs x z zero dst n e f g = absurd (omega arith)
shift_up (l ∷ left) right zs x z (suc src) zero n e f g = absurd (omega arith)
shift_up (l ∷ left) right zs x z (suc src) (suc dst) n e f g =
    ap (◌∷◌ l) (shift_up left right zs x z src dst n (omega arith) (omega arith) g)

shift_down :
    (left right zs : List Cell) (x z : Cell) (src dst n : ℕ)
    → dst ≡ length left
    → src ≡ suc dst
    → n ≡ suc (length right)
    → memmove dst src n (left ++ x ∷ right ++ z ∷ zs) ≡ left ++ right ++ z ∷ z ∷ zs
unfolding memmove
shift_down [] right zs x z (suc zero) zero (suc n) e f g =
    ap (λ cs. cs ++ drop n (right ++ z ∷ zs)) (front right n (omega arith))
    ∙ ap (λ cs. (right ++ z ∷ []) ++ cs) (drop_append right (z ∷ zs) n (omega arith))
    ∙ append_assoc right (z ∷ []) (z ∷ zs)
  where
    front :
        (right : List Cell) (n : ℕ)
        → n ≡ length right
        → take (suc n) (right ++ z ∷ zs) ≡ right ++ z ∷ []
    front [] zero e = refl
    front [] (suc n) e = absurd (omega arith)
    front (r ∷ rs) zero e = absurd (omega arith)
    front (r ∷ rs) (suc n) e = ap (◌∷◌ r) (front rs n (omega arith))
shift_down [] right zs x z zero zero n e f g = absurd (omega arith)
shift_down [] right zs x z (suc (suc src)) zero n e f g = absurd (omega arith)
shift_down [] right zs x z (suc zero) zero zero e f g = absurd (omega arith)
shift_down [] right zs x z src (suc dst) n e f g = absurd (omega arith)
shift_down (l ∷ left) right zs x z src zero n e f g = absurd (omega arith)
shift_down (l ∷ left) right zs x z zero (suc dst) n e f g = absurd (omega arith)
shift_down (l ∷ left) right zs x z (suc src) (suc dst) n e f g =
    ap (◌∷◌ l) (shift_down left right zs x z src dst n (omega arith) (omega arith) g)

pub drop-split :
    (xs : List Cell) (n : ℕ) (x : Cell) (rest : List Cell)
    → drop n xs ≡ x ∷ rest
    → drop (suc n) xs ≡ rest
drop-split [] zero x rest e = ap (drop 1) e
drop-split [] (suc n) x rest e = ap (drop 1) e
drop-split (y ∷ ys) zero x rest e = ap (drop 1) e
drop-split (y ∷ ys) (suc n) x rest e = drop-split ys n x rest e

pub shifted_up :
    (xs left rest zs : List Cell) (x : Cell) (pos : ℕ)
    → xs ≡ left ++ x ∷ rest
    → length left ≡ pos
    → pos + suc (length rest) ≡ length xs
    → memmove (pos + 1) pos (length xs - pos) (xs ++ none ∷ zs) ≡ left ++ x ∷ x ∷ rest ++ zs
shifted_up xs left rest zs x pos whole len sum =
    let n = length xs - pos in
    ap (λ cs. memmove (pos + 1) pos n (cs ++ none ∷ zs)) whole
    ∙ shift_up left rest zs x none pos (pos + 1) n (sym len) (omega arith) (omega (arith, sum))

pub shifted_down :
    (xs left rest zs : List Cell) (x : Cell) (pos : ℕ)
    → xs ≡ left ++ x ∷ rest
    → length left ≡ pos
    → pos + suc (length rest) ≡ length xs
    → memmove pos (pos + 1) (length xs - pos) (xs ++ none ∷ zs) ≡ left ++ rest ++ none ∷ none ∷ zs
shifted_down xs left rest zs x pos whole len sum =
    let n = length xs - pos in
    ap (λ cs. memmove pos (pos + 1) n (cs ++ none ∷ zs)) whole
    ∙ shift_down left rest zs x none (pos + 1) pos n (sym len) (omega arith) (omega (arith, sum))
