-- ===== src/Tests/Numbers.antt =====
-- dborb/util.c, the maps of names to numbers, at small inputs.
use testbus.Base.{to_lower, ◌≡◌, refl, List, [], ◌∷◌, none, some, arith, str_eq}
use testbus.IntMap.{
  IntMap, str_case_eq, digit, strtoul_from, has_prefix, real_base, without_prefix, whole,
  parse_ulong, parse_uint, find_value, find_name, parse_uint_mapped, format_uint_mapped,
  parse_uint_maybe_mapped, format_uint_maybe_mapped, decimal,
}
use testbus.IntMap.Roundtrip.{IsMap, is_word, nameless, parse-format}

-- no is 0 and on is 1.
abbrev switch : List IntMap
switch =
    record { name = b'n' ∷ b'o' ∷ []; value = 0 }
    ∷ record { name = b'o' ∷ b'n' ∷ []; value = 1 }
    ∷ []

switch-IsMap : IsMap switch
unfolding is_word str_case_eq to_lower str_eq
switch-IsMap = (refl, (refl, tt), (refl, tt, tt))

parse-format_example :
    parse_uint_maybe_mapped (format_uint_maybe_mapped 17 (some switch)) (some switch) 10
    ≡ some (17, nameless (format_uint_mapped 17 (some switch)))
parse-format_example = parse-format switch 17 switch-IsMap (omega arith)

-- Names are found in any case.
parse-upper : parse_uint_mapped (some (b'O' ∷ b'N' ∷ [])) (some switch) ≡ some 1
unfolding parse_uint_mapped find_value str_case_eq to_lower str_eq
parse-upper = refl

-- 0x1f, 017 and 12 in the base that they are written in, and 0x1f with base 10.
parse-hex : parse_uint (some (b'0' ∷ b'x' ∷ b'1' ∷ b'f' ∷ [])) 0 ≡ some 31
unfolding parse_uint parse_ulong strtoul_from real_base without_prefix has_prefix digit whole
parse-hex = refl

parse-octal : parse_uint (some (b'0' ∷ b'1' ∷ b'7' ∷ [])) 0 ≡ some 15
unfolding parse_uint parse_ulong strtoul_from real_base without_prefix has_prefix digit whole
parse-octal = refl

parse-twelve : parse_uint (some (b'1' ∷ b'2' ∷ [])) 0 ≡ some 12
unfolding parse_uint parse_ulong strtoul_from real_base without_prefix has_prefix digit whole
parse-twelve = refl

parse-prefix : parse_uint (some (b'0' ∷ b'x' ∷ b'1' ∷ b'f' ∷ [])) 10 ≡ none
unfolding parse_uint parse_ulong strtoul_from real_base without_prefix has_prefix digit whole
parse-prefix = refl

format-17 : format_uint_maybe_mapped 17 (some switch) ≡ some (b'1' ∷ b'7' ∷ [])
unfolding format_uint_maybe_mapped format_uint_mapped find_name decimal
format-17 = refl
