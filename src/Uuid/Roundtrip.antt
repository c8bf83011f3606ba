-- ===== src/Uuid/Roundtrip.antt =====
-- What ni_uuid_print writes, ni_uuid_parse reads.
use testbus.Base.{
  to_lower, ℕ, zero, suc, ◌+◌, ◌-◌, ◌*◌, ◌/◌, ◌%◌, ◌<◌, ◌≡◌, refl, List, [], ◌∷◌, ◌++◌, some, Bool,
  true, false, ◌&&◌, CString, arith, All, set, length, replicate, ◌==◌, Bool-cases, inl, inr, ap,
  ◌∙◌, append_assoc, length-append,
}
use testbus.Uuid.{
  is_null, hex, dash_before, print_from, print, digit_value, is_separator, parse_from, parse,
}

digit_value-hex : (v : ℕ) → v < 16 → digit_value (to_lower (hex v)) ≡ some v
unfolding digit_value to_lower hex
digit_value-hex v h = ground arith

hex-not_separator : (v : ℕ) → v < 16 → is_separator (hex v) ≡ false
unfolding is_separator hex
hex-not_separator v h = ground arith

set-append_length :
    (xs ys : List ℕ) (y z : ℕ) (i : ℕ)
    → i ≡ length xs
    → set (xs ++ y ∷ ys) i z ≡ (xs ++ z ∷ []) ++ ys
set-append_length [] ys y z zero e = refl
set-append_length [] ys y z (suc i) e = absurd (omega arith)
set-append_length (x ∷ xs) ys y z zero e = absurd (omega arith)
set-append_length (x ∷ xs) ys y z (suc i) e =
    ap (◌∷◌ x) (set-append_length xs ys y z i (omega arith))

-- Two digits are read as the octet that they were printed from.
octet_lem :
    (after : Bool) (n i b : ℕ) (octets : List ℕ) (cs : CString)
    → n ≡ 2 * i
    → i < 16
    → b < 256
    → parse_from after n 0 octets (hex (b / 16) ∷ hex (b % 16) ∷ cs)
      ≡ parse_from true (n + 1 + 1) 0 (set octets i b) cs
unfolding parse_from
octet_lem after n i b octets cs e h o =
    let hi : b / 16 < 16 = omega arith in
    let lo : b % 16 < 16 = omega arith in
    let sep = hex-not_separator (b / 16) hi in
    let no_sep : (after && is_separator (hex (b / 16))) ≡ false = ground (arith, sep) in
    let go1 : (n == 32) ≡ false = ground arith in
    let go2 : (n + 1 == 32) ≡ false = ground arith in
    let odd : ((n + 1) % 2 == 0) ≡ false = ground arith in
    let even : ((n + 1 + 1) % 2 == 0) ≡ true = ground arith in
    rw
      (
        parse_from,
        no_sep,
        go1,
        digit_value-hex (b / 16) hi,
        odd,
        go2,
        digit_value-hex (b % 16) lo,
        even,
      )
      (ap (λ v. parse_from true (n + 1 + 1) 0 (set octets ((n + 1 + 1) / 2 - 1) v) cs) (omega arith)
        ∙ ap (λ k. parse_from true (n + 1 + 1) 0 (set octets k b) cs) (omega arith))

step_lem :
    (after : Bool) (n i b : ℕ) (bs octets : List ℕ)
    → n ≡ 2 * i
    → i < 16
    → b < 256
    → (dash_before i ≡ true → after ≡ true)
    → parse_from after n 0 octets (print_from i (b ∷ bs))
      ≡ parse_from true (n + 1 + 1) 0 (set octets i b) (print_from (suc i) bs)
unfolding print_from parse_from is_separator
step_lem after n i b bs octets e h o d = elim (Bool-cases (dash_before i)) [
  | inl dash ↦ rw (dash, d dash) (octet_lem false n i b octets (print_from (suc i) bs) e h o)
  | inr none' ↦ rw none' (octet_lem after n i b octets (print_from (suc i) bs) e h o)
]

read_lem :
    (bs done rest : List ℕ) (n i : ℕ)
    → n ≡ 2 * i
    → i ≡ length done
    → length rest ≡ length bs
    → i + length bs ≡ 16
    → All (λ b. b < 256) bs
    → parse_from true n 0 (done ++ rest) (print_from i bs) ≡ (true, done ++ bs)
unfolding print_from parse_from
read_lem [] done [] n i e f g s o = ap (λ x. (x, done ++ [])) (ground arith)
read_lem [] done (r ∷ rs) n i e f g s o = absurd (omega arith)
read_lem (b ∷ bs) done [] n i e f g s o = absurd (omega arith)
read_lem (b ∷ bs) done (r ∷ rs) n i e f g s o =
    step_lem true n i b bs (done ++ r ∷ rs) e (omega arith) o.0 (λ d. refl)
    ∙ ap (λ x. parse_from true (n + 1 + 1) 0 x (print_from (suc i) bs))
        (set-append_length done rs r b i f)
    ∙ read_lem bs (done ++ b ∷ []) rs (n + 1 + 1) (suc i) (omega arith)
        (omega (arith, length-append done (b ∷ []))) (omega arith) (omega arith) o.1
    ∙ ap (λ x. (true, x)) (append_assoc done (b ∷ []) bs)

null_lem : (u : List ℕ) (n : ℕ) → length u ≡ n → is_null u ≡ true → replicate n 0 ≡ u
unfolding is_null
null_lem [] zero e h = refl
null_lem [] (suc n) e h = absurd (omega arith)
null_lem (b ∷ bs) zero e h = absurd (omega arith)
null_lem (b ∷ bs) (suc n) e h = ground (arith, h, null_lem bs n (omega arith))

-- ni_uuid_parse reads what ni_uuid_print wrote, for every uuid of 16 octets, the null uuid included,
-- and whatever the 16 octets that it writes over.
pub parse-print :
    (u octets : List ℕ)
    → length u ≡ 16
    → length octets ≡ 16
    → All (λ b. b < 256) u
    → parse octets (print u) ≡ (true, u)
unfolding parse print dash_before
parse-print [] octets e f o = absurd (omega arith)
parse-print (b ∷ bs) [] e f o = absurd (omega arith)
parse-print (b ∷ bs) (r ∷ rs) e f o = elim (Bool-cases (is_null (b ∷ bs))) [
  | inl null ↦ rw null (ap (λ x. (true, x)) (null_lem (b ∷ bs) 16 e null))
  | inr other ↦ rw other (
      step_lem false 0 0 b bs (r ∷ rs) refl (omega arith) o.0 (λ d. d)
      ∙ read_lem bs (b ∷ []) rs 2 1 refl refl (omega arith) (omega arith) o.1)
]
