-- ===== src/Uuid.antt =====
-- The uuids of dborb/util.c, by which agents are known again: their printed form.
pub mod Roundtrip
use testbus.Base.{
  to_lower, ℕ, suc, ◌+◌, ◌-◌, ◌*◌, ◌/◌, ◌%◌, List, [], ◌∷◌, ◌++◌, Option, none, some, Bool, true,
  false, ◌&&◌, ◌||◌, CString, set, replicate, if◌then◌else◌, ◌==◌, ltb, leb,
}

-- ni_uuid_is_null
unfoldable pub is_null : List ℕ → Bool
is_null [] = true
is_null (b ∷ bs) = (b == 0) && is_null bs

-- A digit of the format %02x.
unfoldable pub hex : ℕ → ℕ
hex v = if ltb v 10 then b'0' + v else b'a' + (v - 10)

-- The octets from number `i` on, as the format of ni_uuid_print writes them: a dash stands before
-- the octets 4, 6, 8 and 10.
unfoldable pub dash_before : ℕ → Bool
dash_before i = (i == 4) || (i == 6) || (i == 8) || (i == 10)

unfoldable pub print_from : ℕ → List ℕ → CString
unfolding hex dash_before
print_from i [] = []
print_from i (b ∷ bs) =
    let rest = hex (b / 16) ∷ hex (b % 16) ∷ print_from (suc i) bs in
    if dash_before i then b'-' ∷ rest else rest

-- ni_uuid_print, on the 16 octets of a uuid. The buffer of 64 bytes holds all of it.
unfoldable pub print : List ℕ → CString
unfolding is_null print_from
print uuid = if is_null uuid then [] else print_from 0 uuid

-- `cc - '0'` or `cc - 'a' + 10`, or the error.
unfoldable pub digit_value : ℕ → Option ℕ
digit_value cc =
    if leb b'0' cc && leb cc b'9'
    then some (cc - b'0')
    else if leb b'a' cc && leb cc b'f'
    then some (cc - b'a' + 10)
    else none

unfoldable pub is_separator : ℕ → Bool
is_separator c = (c == b'-') || (c == b':')

-- The loop of ni_uuid_parse. `after` says that an octet has just been completed, so that a separator
-- is passed over. The result says whether the string is a uuid, and what the octets are by then.
unfoldable pub parse_from : Bool → ℕ → ℕ → List ℕ → CString → Bool × List ℕ
unfolding to_lower digit_value is_separator
parse_from after nibbles byte octets [] = (leb 32 nibbles, octets)
parse_from after nibbles byte octets (c ∷ cs) = elim (after && is_separator c) [
  | true ↦ parse_from false nibbles byte octets cs
  | false ↦ elim (nibbles == 32) [
    | true ↦ (false, octets)
    | false ↦ elim (digit_value (to_lower c)) [
      | none ↦ (false, octets)
      | some v ↦ elim ((nibbles + 1) % 2 == 0) [
        | true ↦
            parse_from true (nibbles + 1) 0
              (set octets ((nibbles + 1) / 2 - 1) ((byte * 16 + v) % 256)) cs
        | false ↦ parse_from false (nibbles + 1) ((byte * 16 + v) % 256) octets cs
      ]
    ]
  ]
]

-- ni_uuid_parse, on the octets that the uuid had.
unfoldable pub parse : List ℕ → CString → Bool × List ℕ
unfolding parse_from
parse octets [] = (true, replicate 16 0)
parse octets (c ∷ cs) = parse_from false 0 0 octets (c ∷ cs)
