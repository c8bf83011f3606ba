-- ===== src/IntMap.antt =====
-- dborb/util.c: names for numbers, and how numbers are read and printed.
pub mod Decimal
pub mod Roundtrip
use testbus.Base.{
  to_lower, ℕ, zero, suc, ◌+◌, ◌-◌, ◌*◌, ◌/◌, ◌%◌, ◌^◌, List, [], ◌∷◌, Option, none, some, Bool,
  true, false, not, ◌&&◌, ◌||◌, CString, str_eq, map, drop, if◌then◌else◌, ◌==◌, ltb, leb,
}

-- ni_intmap_t; an array of them ends at the first without a name.
pub record IntMap : Type 0 where
  pub name : CString
  pub value : ℕ

-- !strcasecmp(a, b)
unfoldable pub str_case_eq : CString → CString → Bool
unfolding to_lower str_eq
str_case_eq a b = str_eq (map to_lower a) (map to_lower b)

-- The value of a digit or letter in strtoul; 36 is none.
unfoldable pub digit : ℕ → ℕ
digit c =
    if leb 48 c && leb c 57
    then c - 48
    else if leb 65 c && leb c 90
    then c - 55
    else if leb 97 c && leb c 122
    then c - 87
    else 36

-- strtoul behind the sign and the prefix: the number, and where it stops.
unfoldable pub strtoul_from : ℕ → ℕ → CString → ℕ × CString
unfolding digit
strtoul_from base value [] = (value, [])
strtoul_from base value (c ∷ cs) =
    let rest = strtoul_from base (value * base + digit c) cs in
    if ltb (digit c) base then rest else (value, c ∷ cs)

-- A prefix 0x with a digit behind it.
unfoldable pub has_prefix : CString → Bool
unfolding digit
has_prefix (c ∷ x ∷ d ∷ cs) = ((c == 48) && ((x == 120) || (x == 88))) && ltb (digit d) 16
has_prefix cs = false

-- The base that strtoul takes: for 0 the one that the number is written in.
unfoldable pub real_base : ℕ → CString → ℕ
unfolding has_prefix
real_base zero cs = if has_prefix cs then 16 else if starts_octal cs then 8 else 10
  where
    starts_octal : CString → Bool
    starts_octal [] = false
    starts_octal (c ∷ cs) = c == 48
real_base (suc base) cs = suc base

-- strtoul passes over the prefix.
unfoldable pub without_prefix : ℕ → CString → CString
unfolding has_prefix
without_prefix base cs = if (base == 16) && has_prefix cs then drop 2 cs else cs

-- What ni_parse_ulong makes of strtoul's number and rest. A number of more than 64 bits is the error
-- ERANGE of strtoul.
unfoldable pub whole : ℕ × CString → Option ℕ
whole (value, []) = if ltb value (2 ^ 64) then some value else none
whole (value, c ∷ cs) = none

-- ni_parse_ulong, with a place for the result. What is no digit at the front is refused, so strtoul sees
-- no blank and no sign there.
unfoldable pub parse_ulong : Option CString → ℕ → Option ℕ
unfolding strtoul_from real_base without_prefix whole digit
parse_ulong none base = none
parse_ulong (some []) base = none
parse_ulong (some (c ∷ cs)) base =
    let real = real_base base (c ∷ cs) in
    if ltb (digit c) (if base == 16 then 16 else 10)
    then whole (strtoul_from real 0 (without_prefix real (c ∷ cs)))
    else none

-- ni_parse_uint
unfoldable pub parse_uint : Option CString → ℕ → Option ℕ
unfolding parse_ulong
parse_uint input base = elim (parse_ulong input base) [
  | none ↦ none
  | some value ↦ if ltb value (2 ^ 32) then some value else none
]

-- The loop of ni_parse_uint_mapped.
unfoldable pub find_value : List IntMap → CString → Option ℕ
unfolding str_case_eq
find_value [] input = none
find_value (m ∷ ms) input =
    let rest = find_value ms input in if str_case_eq m.name input then some m.value else rest

-- ni_parse_uint_mapped; `none` is -1.
unfoldable pub parse_uint_mapped : Option CString → Option (List IntMap) → Option ℕ
unfolding find_value
parse_uint_mapped none m = none
parse_uint_mapped (some input) none = none
parse_uint_mapped (some input) (some ms) = find_value ms input

-- The loop of ni_format_uint_mapped.
unfoldable pub find_name : List IntMap → ℕ → Option CString
find_name [] value = none
find_name (m ∷ ms) value =
    let rest = find_name ms value in if m.value == value then some m.name else rest

-- ni_format_uint_mapped
unfoldable pub format_uint_mapped : ℕ → Option (List IntMap) → Option CString
unfolding find_name
format_uint_mapped value none = none
format_uint_mapped value (some ms) = find_name ms value

-- ni_parse_uint_maybe_mapped: the result and what is returned; `none` is -1.
unfoldable pub parse_uint_maybe_mapped : Option CString → Option (List IntMap) → ℕ → Option (ℕ × ℕ)
unfolding parse_uint_mapped parse_uint format_uint_mapped
parse_uint_maybe_mapped none m base = none
parse_uint_maybe_mapped (some input) none base = none
parse_uint_maybe_mapped (some input) (some ms) base =
    elim (parse_uint_mapped (some input) (some ms)) [
      | some value ↦ some (value, 0)
      | none ↦ elim (parse_uint (some input) base) [
        | none ↦ none
        | some value ↦ elim (format_uint_mapped value (some ms)) [
          | none ↦ some (value, 1)
          | some name ↦ some (value, 0)
        ]
      ]
    ]

-- The digits of "%u" in front of a string. A number of 32 bits has at most ten: nine rounds more.
unfoldable pub decimal : ℕ → ℕ → CString → CString
decimal zero n behind = (48 + n % 10) ∷ behind
decimal (suc rounds) n behind =
    let rest = decimal rounds (n / 10) ((48 + n % 10) ∷ behind) in
    if ltb n 10 then (48 + n) ∷ behind else rest

-- ni_format_uint_maybe_mapped
unfoldable pub format_uint_maybe_mapped : ℕ → Option (List IntMap) → Option CString
unfolding format_uint_mapped decimal
format_uint_maybe_mapped value none = none
format_uint_maybe_mapped value (some ms) = elim (format_uint_mapped value (some ms)) [
  | some name ↦ some name
  | none ↦ some (decimal 9 value [])
]
