-- ===== src/Tests/Names.antt =====
-- server/main.c, the owners of bus names, at small inputs.
use testbus.Base.{◌≡◌, refl, [], ◌∷◌, some, CString, str_eq}
use testbus.BusNames.{Signals, given, record_in, record_name, record_all, lookup}

abbrev agent : CString
agent = b'a' ∷ []

abbrev first : CString
first = b'1' ∷ []

abbrev second : CString
second = b'2' ∷ []

-- The agent's name changes its owner; another name is released.
abbrev signals : Signals
signals =
    (agent, some first) ∷ (b'b' ∷ [], some first) ∷ (agent, some second) ∷ (b'b' ∷ [], some []) ∷ []

record-signals : record_all [] signals ≡ record { bus_name = agent; owner = second } ∷ []
unfolding record_all record_name record_in given str_eq
record-signals = refl

lookup-second : lookup (record_all [] signals) second ≡ agent
unfolding record_all record_name record_in given lookup str_eq
lookup-second = refl

lookup-first : lookup (record_all [] signals) first ≡ first
unfolding record_all record_name record_in given lookup str_eq
lookup-first = refl
