-- ===== src/BusNames.antt =====
-- server/main.c: who owns which well-known bus name, by the signals NameOwnerChanged of D-Bus.
pub mod Owners
use testbus.Base.{
  List, [], ◌∷◌, Option, none, some, Bool, true, false, CString, str_eq, if◌then◌else◌,
}

-- ni_name_mapping_t; the list by its `next` pointers.
pub record Mapping : Type 0 where
  pub bus_name : CString
  pub owner : CString

-- `owner && *owner == '\0'`: an empty owner is none.
unfoldable pub given : Option CString → Option CString
given none = none
given (some []) = none
given (some (c ∷ cs)) = some (c ∷ cs)

-- The loop of ni_testbus_record_wellknown_bus_name.
unfoldable pub record_in : List Mapping → CString → Option CString → List Mapping
record_in [] name none = []
record_in [] name (some owner) = record { bus_name = name; owner = owner } ∷ []
record_in (m ∷ ms) name owner =
    let rest = record_in ms name owner in
    if str_eq m.bus_name name
    then elim owner [ none ↦ ms | some o ↦ record m { owner = o } ∷ ms ]
    else m ∷ rest

-- ni_testbus_record_wellknown_bus_name
unfoldable pub record_name : List Mapping → CString → Option CString → List Mapping
unfolding given record_in
record_name ms name owner = record_in ms name (given owner)

-- ni_testbus_lookup_wellknown_bus_name
unfoldable pub lookup : List Mapping → CString → CString
lookup [] owner = owner
lookup (m ∷ ms) owner =
    let rest = lookup ms owner in if str_eq m.owner owner then m.bus_name else rest

-- The names and owners of a sequence of signals.
abbrev pub Signals : Type 0
Signals = List (CString × Option CString)

unfoldable pub record_all : List Mapping → Signals → List Mapping
unfolding record_name
record_all ms [] = ms
record_all ms ((name, owner) ∷ ss) = record_all (record_name ms name owner) ss
