-- ===== src/Tests/Hostlists.antt =====
-- Requests on the list of hosts, and uuids, at small inputs.
use testbus.Base.{ℕ, ◌≡◌, refl, List, [], ◌∷◌, true, CString, arith}
use testbus.Uuid.{print, parse, is_null, print_from, hex, dash_before}
use testbus.Uuid.Roundtrip.{parse-print}
use testbus.Host.{Host}
use testbus.Hostlist.Requests.{made}

abbrev name : CString
name = b'h' ∷ []

abbrev other : CString
other = b'k' ∷ []

abbrev bus : CString
bus = b'b' ∷ []

abbrev uuid : List ℕ
uuid = 1 ∷ 35 ∷ 69 ∷ 103 ∷ 137 ∷ 171 ∷ 205 ∷ 239 ∷ 0 ∷ 1 ∷ 2 ∷ 3 ∷ 4 ∷ 5 ∷ 6 ∷ 255 ∷ []

abbrev zeros : List ℕ
zeros = 0 ∷ 0 ∷ 0 ∷ 0 ∷ 0 ∷ 0 ∷ 0 ∷ 0 ∷ 0 ∷ 0 ∷ 0 ∷ 0 ∷ 0 ∷ 0 ∷ 0 ∷ 0 ∷ []

-- One host, whose agent has the bus name `bus`.
abbrev hosts : List Host
hosts = made name bus uuid ∷ []

print-uuid :
    print uuid
    ≡ b'0' ∷ b'1' ∷ b'2' ∷ b'3' ∷ b'4' ∷ b'5' ∷ b'6' ∷ b'7' ∷ b'-' ∷ b'8' ∷ b'9' ∷ b'a' ∷ b'b'
      ∷ b'-' ∷ b'c' ∷ b'd' ∷ b'e' ∷ b'f' ∷ b'-' ∷ b'0' ∷ b'0' ∷ b'0' ∷ b'1' ∷ b'-' ∷ b'0' ∷ b'2'
      ∷ b'0' ∷ b'3' ∷ b'0' ∷ b'4' ∷ b'0' ∷ b'5' ∷ b'0' ∷ b'6' ∷ b'f' ∷ b'f' ∷ []
unfolding print is_null print_from hex dash_before
print-uuid = refl

parse-print_example : parse zeros (print uuid) ≡ (true, uuid)
parse-print_example = parse-print uuid zeros refl refl (ground arith)
