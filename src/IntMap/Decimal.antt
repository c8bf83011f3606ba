-- ===== src/IntMap/Decimal.antt =====
-- A number that is printed is read back.
use testbus.Base.{
  ℕ, zero, suc, ◌+◌, ◌*◌, ◌/◌, ◌%◌, ◌^◌, ◌<◌, ◌≤◌, ◌≡◌, refl, sym, ap, ◌∙◌, [], ◌∷◌, some, true,
  CString, arith, ltb, Bool-cases, inl, inr,
}
use testbus.IntMap.{
  digit, strtoul_from, real_base, without_prefix, whole, parse_ulong, parse_uint, decimal,
}

digit-char : (d : ℕ) → d < 10 → digit (48 + d) ≡ d
unfolding digit
digit-char d h = ground arith

step :
    (value d : ℕ) (cs : CString)
    → d < 10
    → strtoul_from 10 value ((48 + d) ∷ cs) ≡ strtoul_from 10 (value * 10 + d) cs
unfolding strtoul_from
step value d cs h =
    let is : ltb d 10 ≡ true = ground arith in rw (strtoul_from, digit-char d h, is) refl

-- Reading the digits of a number leaves the number, in front of what is behind it.
strtoul-decimal :
    (rounds n : ℕ) (behind : CString)
    → n < 10 ^ suc rounds
    → strtoul_from 10 0 (decimal rounds n behind) ≡ strtoul_from 10 n behind
unfolding decimal
strtoul-decimal zero n behind h =
    step 0 (n % 10) behind (omega arith) ∙ ap (λ v. strtoul_from 10 v behind) (omega arith)
strtoul-decimal (suc rounds) n behind h =
    elim (Bool-cases (ltb n 10))
      as (λ _. strtoul_from 10 0 (decimal (suc rounds) n behind) ≡ strtoul_from 10 n behind) [
        | inl e ↦
            rw (decimal, e)
              (step 0 n behind (ground (arith, e))
                ∙ ap (λ v. strtoul_from 10 v behind) (omega arith))
        | inr e ↦
            rw (decimal, e)
              (strtoul-decimal rounds (n / 10) ((48 + n % 10) ∷ behind) (omega arith)
                ∙ step (n / 10) (n % 10) behind (omega arith)
                ∙ ap (λ v. strtoul_from 10 v behind) (omega arith))
      ]

-- The first digit.
pub data Starts (s : CString) : Type 0 where
  starts : (c : ℕ) (cs : CString) → 48 ≤ c → c ≤ 57 → s ≡ c ∷ cs → Starts s

pub decimal-Starts : (rounds n : ℕ) (behind : CString) → Starts (decimal rounds n behind)
unfolding decimal
decimal-Starts zero n behind = starts (48 + n % 10) behind (omega arith) (omega arith) refl
decimal-Starts (suc rounds) n behind =
    elim (Bool-cases (ltb n 10)) as (λ _. Starts (decimal (suc rounds) n behind)) [
      | inl e ↦ starts (48 + n) behind (omega arith) (ground (arith, e)) (rw (decimal, e) refl)
      | inr e ↦ rw (decimal, e) (decimal-Starts rounds (n / 10) ((48 + n % 10) ∷ behind))
    ]

whole_lem : (n : ℕ) → n < 2 ^ 32 → whole (strtoul_from 10 n []) ≡ some n
unfolding strtoul_from whole
whole_lem n h = ground arith

digit_lem : (c : ℕ) → 48 ≤ c → c ≤ 57 → ltb (digit c) 10 ≡ true
unfolding digit
digit_lem c h k = ground arith

parse_digits :
    (c : ℕ) (cs : CString)
    → 48 ≤ c
    → c ≤ 57
    → parse_ulong (some (c ∷ cs)) 10 ≡ whole (strtoul_from 10 0 (c ∷ cs))
unfolding parse_ulong real_base without_prefix
parse_digits c cs h k = let is : ltb (digit c) 10 ≡ true = digit_lem c h k in rw (is) refl

-- A printed number is read back.
pub parse_uint-decimal : (n : ℕ) → n < 2 ^ 32 → parse_uint (some (decimal 9 n [])) 10 ≡ some n
unfolding parse_uint
parse_uint-decimal n h = elim (decimal-Starts 9 n []) [
  | starts c cs lo hi e ↦
      let long : parse_ulong (some (decimal 9 n [])) 10 ≡ some n =
        ap (λ s. parse_ulong (some s) 10) e
        ∙ parse_digits c cs lo hi
        ∙ ap (λ s. whole (strtoul_from 10 0 s)) (sym e)
        ∙ ap whole (strtoul-decimal 9 n [] (omega arith))
        ∙ whole_lem n h in
      let small : ltb n (2 ^ 32) ≡ true = ground arith in rw (parse_uint, long, small) refl
]
