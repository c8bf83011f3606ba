-- ===== src/IntMap/Roundtrip.antt =====
-- What ni_format_uint_maybe_mapped prints, ni_parse_uint_maybe_mapped reads.
use testbus.Base.{
  to_lower, ℕ, ◌^◌, ◌<◌, ◌≤◌, ◌≡◌, refl, sym, ap, ◌∙◌, List, [], ◌∷◌, Option, none, some, Bool,
  true, false, not, ◌&&◌, CString, arith, map, All, leb, ◌==◌, ==_iff, Bool-cases, Option-cases,
  inl, inr, str_eq, strcmp_refl, some-injective,
}
use testbus.IntMap.{
  IntMap, str_case_eq, find_value, find_name, decimal, parse_uint_mapped, format_uint_mapped,
  parse_uint_maybe_mapped, format_uint_maybe_mapped,
}
use testbus.IntMap.Decimal.{Starts, starts, decimal-Starts, parse_uint-decimal}

-- No digit at the front.
unfoldable pub is_word : CString → Bool
is_word [] = true
is_word (c ∷ cs) = not (leb 48 c && leb c 57)

-- No name is a number, and no name stands for two values, whatever its case.
abbrev pub IsMap : List IntMap → Type 0
IsMap [] = Unit {0}
IsMap (m ∷ ms) =
    (is_word m.name ≡ true) × All (λ x. str_case_eq m.name x.name ≡ false) ms × IsMap ms

str_case_eq_refl : (s : CString) → str_case_eq s s ≡ true
unfolding str_case_eq str_eq
str_case_eq_refl s = rw (str_case_eq, str_eq, strcmp_refl (map to_lower s)) refl

-- A number is none of the names.
heads_ne :
    (c d : ℕ) (cs ds : CString)
    → not (leb 48 c && leb c 57) ≡ true
    → 48 ≤ d
    → d ≤ 57
    → str_case_eq (c ∷ cs) (d ∷ ds) ≡ false
unfolding str_case_eq str_eq to_lower
heads_ne c d cs ds h lo hi = ground arith

number_ne : (s t : CString) → is_word s ≡ true → Starts t → str_case_eq s t ≡ false
unfolding str_case_eq str_eq is_word
number_ne [] t h (starts c cs lo hi e) = ap (str_case_eq []) e
number_ne (x ∷ xs) t h (starts c cs lo hi e) =
    ap (str_case_eq (x ∷ xs)) e ∙ heads_ne x c xs cs h lo hi

find_value-number : (ms : List IntMap) (t : CString) → IsMap ms → Starts t → find_value ms t ≡ none
unfolding find_value
find_value-number [] t h n = refl
find_value-number (m ∷ ms) t h n =
    rw (find_value, number_ne m.name t h.0 n) (find_value-number ms t h.2 n)

found_ne :
    (name : CString) (ms : List IntMap) (v : ℕ) (s : CString)
    → All (λ x. str_case_eq name x.name ≡ false) ms
    → find_name ms v ≡ some s
    → str_case_eq name s ≡ false
unfolding find_name
found_ne name [] v s h e = cc
found_ne name (m ∷ ms) v s h e = elim (Bool-cases (m.value == v)) [
  | inl same ↦ ap (str_case_eq name) (some-injective (sym e ∙ rw (find_name, same) refl)) ∙ h.0
  | inr other ↦ found_ne name ms v s h.1 (sym (rw (find_name, other) refl) ∙ e)
]

find_value-name :
    (ms : List IntMap) (v : ℕ) (s : CString)
    → IsMap ms
    → find_name ms v ≡ some s
    → find_value ms s ≡ some v
unfolding find_value find_name
find_value-name [] v s h e = cc
find_value-name (m ∷ ms) v s h e =
    elim (Bool-cases (m.value == v)) as (λ _. find_value (m ∷ ms) s ≡ some v) [
      | inl same ↦
          let name : m.name ≡ s = some-injective (sym (rw (find_name, same) refl) ∙ e) in
          let found : str_case_eq m.name s ≡ true =
            ap (str_case_eq m.name) (sym name) ∙ str_case_eq_refl m.name in
          rw (find_value, found) (ap some ((==_iff m.value v).0 same))
      | inr other ↦
          let later : find_name ms v ≡ some s = sym (rw (find_name, other) refl) ∙ e in
          rw (find_value, found_ne m.name ms v s h.1 later) (find_value-name ms v s h.2 later)
    ]

-- What ni_parse_uint_maybe_mapped returns for a value: 1 if it has no name.
abbrev pub nameless : Option CString → ℕ
nameless none = 1
nameless (some name) = 0

-- ni_parse_uint_maybe_mapped, with base 10, reads back every number of 32 bits that
-- ni_format_uint_maybe_mapped prints, by its name or in digits, and returns 1 exactly if it has no name.
-- No name of the map starts with a digit, and no name occurs twice, in whatever case.
pub parse-format :
    (ms : List IntMap) (v : ℕ)
    → IsMap ms
    → v < 2 ^ 32
    → parse_uint_maybe_mapped (format_uint_maybe_mapped v (some ms)) (some ms) 10
      ≡ some (v, nameless (format_uint_mapped v (some ms)))
unfolding parse_uint_maybe_mapped format_uint_maybe_mapped parse_uint_mapped format_uint_mapped
parse-format ms v h w =
    elim (Option-cases (find_name ms v))
      as (λ _.
        parse_uint_maybe_mapped (format_uint_maybe_mapped v (some ms)) (some ms) 10
        ≡ some (v, nameless (format_uint_mapped v (some ms)))) [
          | inl e ↦
              let digits = decimal 9 v [] in
              let printed : format_uint_maybe_mapped v (some ms) ≡ some digits =
                rw (format_uint_maybe_mapped, e) refl in
              let unnamed : find_value ms digits ≡ none =
                find_value-number ms digits h (decimal-Starts 9 v []) in
              let parsed : parse_uint_maybe_mapped (some digits) (some ms) 10 ≡ some (v, 1) =
                rw (parse_uint_maybe_mapped, unnamed, parse_uint-decimal v w, e) refl in
              ap (λ s. parse_uint_maybe_mapped s (some ms) 10) printed
              ∙ parsed
              ∙ ap (λ s. some (v, nameless s)) (sym e)
          | inr (s, e) ↦
              let printed : format_uint_maybe_mapped v (some ms) ≡ some s =
                rw (format_uint_maybe_mapped, e) refl in
              let parsed : parse_uint_maybe_mapped (some s) (some ms) 10 ≡ some (v, 0) =
                rw (parse_uint_maybe_mapped, find_value-name ms v s h e) refl in
              ap (λ x. parse_uint_maybe_mapped x (some ms) 10) printed
              ∙ parsed
              ∙ ap (λ x. some (v, nameless x)) (sym e)
        ]
