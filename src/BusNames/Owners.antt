-- ===== src/BusNames/Owners.antt =====
-- The recorded names are those that are owned.
use testbus.Base.{
  ◌≡◌, ◌≢◌, List, [], ◌∷◌, Option, none, some, false, CString, str_eq, All, if◌then◌else◌,
}
use testbus.BusNames.{Mapping, Signals, given}

-- The owner that is recorded for a name.
unfoldable pub owner_of : List Mapping → CString → Option CString
owner_of [] name = none
owner_of (m ∷ ms) name =
    let rest = owner_of ms name in if str_eq m.bus_name name then some m.owner else rest

-- The owner that the last signal for a name gave, or `before` without one.
unfoldable pub last_owner : Signals → Option CString → CString → Option CString
last_owner [] before name = before
last_owner ((n, owner) ∷ ss) before name =
    last_owner ss (if str_eq n name then given owner else before) name

abbrev pub Others : CString → List Mapping → Type 0
Others name = All (λ m. str_eq m.bus_name name ≡ false)

abbrev pub Distinct : List Mapping → Type 0
Distinct [] = Unit {0}
Distinct (m ∷ ms) = Others m.bus_name ms × Distinct ms

-- What a lookup answers: a name of that owner, or the owner itself if it has none.
pub data Answer (owner : CString) (owns : CString → Option CString) (result : CString)
    : Type 0 where
  owned : owns result ≡ some owner → Answer owner owns result
  unnamed : result ≡ owner → ((n : CString) → owns n ≢ some owner) → Answer owner owns result
