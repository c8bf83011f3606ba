-- ===== src/Hostlist/Names.antt =====
-- Unique host names, and how the changes of a list of hosts act on lookups by name.
use testbus.Base.{
  ℕ, ◌≡◌, refl, List, [], ◌∷◌, ◌++◌, Option, none, some, false, arith, CString, string_eq,
  string_eq_iff, is_none, if◌then◌else◌, Option-cases,
}
use testbus.Host.{Host, find_by_name, reconnect, agent_ready, agent_disconnected}
use testbus.Hostlist.{update, without, ready_signal, name_lost}

-- No two hosts have the same name, and none has no name.
abbrev pub Distinct : List Host → Type 0
Distinct [] = Unit {0}
Distinct (h ∷ hs) = (is_none h.name ≡ false) × (find_by_name hs h.name ≡ none) × Distinct hs

pub find-append :
    (hs : List Host) (h : Host) (n : Option CString)
    → find_by_name (hs ++ h ∷ []) n ≡ elim (find_by_name hs n) [
      | some g ↦ some g
      | none ↦ if string_eq h.name n then some h else none
    ]
unfolding find_by_name
find-append [] h n = ground arith
find-append (g ∷ gs) h n = ground (arith, find-append gs h n)

pub find-update :
    (hs : List Host) (name : CString) (h' : Host) (n : Option CString)
    → h'.name ≡ some name
    → find_by_name (update hs name h') n ≡ (
        if string_eq (some name) n
        then (elim (find_by_name hs n) [ none ↦ none | some g ↦ some h' ])
        else find_by_name hs n)
unfolding find_by_name update
find-update [] name h' n e = ground arith
find-update (h ∷ hs) name h' n e = ground (
  arith,
  e,
  find-update hs name h' n e,
  string_eq_iff h.name (some name),
  string_eq_iff h.name n,
  string_eq_iff h'.name n,
  string_eq_iff (some name) n,
)

pub find-without :
    (hs : List Host) (name : CString) (n : Option CString)
    → Distinct hs
    → find_by_name (without hs name) n
      ≡ (if string_eq (some name) n then none else find_by_name hs n)
unfolding find_by_name without
find-without [] name n d = ground arith
find-without (h ∷ hs) name n d = ground (
  arith,
  d,
  find-without hs name n d.2,
  string_eq_iff h.name (some name),
  string_eq_iff h.name n,
  string_eq_iff (some name) n,
)

pub Distinct-append :
    (hs : List Host) (h : Host)
    → Distinct hs
    → is_none h.name ≡ false
    → find_by_name hs h.name ≡ none
    → Distinct (hs ++ h ∷ [])
unfolding find_by_name
Distinct-append [] h d n f = (n, refl, tt)
Distinct-append (g ∷ gs) h d n f = ground (
  arith,
  d,
  n,
  f,
  find-append gs h g.name,
  string_eq_iff g.name h.name,
  string_eq_iff h.name g.name,
  Distinct-append gs h d.2,
)

pub Distinct-update :
    (hs : List Host) (name : CString) (h' : Host)
    → h'.name ≡ some name
    → Distinct hs
    → Distinct (update hs name h')
unfolding find_by_name update
Distinct-update [] name h' e d = tt
Distinct-update (h ∷ hs) name h' e d = ground (
  arith,
  d,
  e,
  find-update hs name h' h.name e,
  string_eq_iff h.name (some name),
  Distinct-update hs name h' e d.2,
)

pub Distinct-without : (hs : List Host) (name : CString) → Distinct hs → Distinct (without hs name)
unfolding find_by_name without
Distinct-without [] name d = tt
Distinct-without (h ∷ hs) name d =
    ground (arith, d, find-without hs name h.name d.2, Distinct-without hs name d.2)

-- A signal changes no name.
find-ready_signal :
    (hs : List Host) (sender : CString) (n : Option CString)
    → is_none (find_by_name (ready_signal hs sender) n) ≡ is_none (find_by_name hs n)
unfolding find_by_name ready_signal agent_ready
find-ready_signal [] sender n = refl
find-ready_signal (h ∷ hs) sender n = ground (arith, find-ready_signal hs sender n)

find-name_lost :
    (hs : List Host) (name : CString) (n : Option CString)
    → is_none (find_by_name (name_lost hs name) n) ≡ is_none (find_by_name hs n)
unfolding find_by_name name_lost agent_disconnected
find-name_lost [] name n = refl
find-name_lost (h ∷ hs) name n = ground (arith, find-name_lost hs name n)

pub Distinct-ready_signal :
    (hs : List Host) (sender : CString) → Distinct hs → Distinct (ready_signal hs sender)
unfolding ready_signal agent_ready
Distinct-ready_signal [] sender d = tt
Distinct-ready_signal (h ∷ hs) sender d = ground (
  arith,
  d,
  find-ready_signal hs sender h.name,
  Distinct-ready_signal hs sender d.2,
  Option-cases (find_by_name (ready_signal hs sender) h.name),
)

pub Distinct-name_lost :
    (hs : List Host) (name : CString) → Distinct hs → Distinct (name_lost hs name)
unfolding name_lost agent_disconnected
Distinct-name_lost [] name d = tt
Distinct-name_lost (h ∷ hs) name d = ground (
  arith,
  d,
  find-name_lost hs name h.name,
  Distinct-name_lost hs name d.2,
  Option-cases (find_by_name (name_lost hs name) h.name),
)

pub found_name :
    (hs : List Host) (n : Option CString) (h : Host) → find_by_name hs n ≡ some h → h.name ≡ n
unfolding find_by_name
found_name [] n h e = ground (arith, e)
found_name (g ∷ gs) n h e = ground (arith, e, string_eq_iff g.name n, found_name gs n h)

pub reconnect_name :
    (h : Host) (uuid : List ℕ) (agent : CString) (fresh : List ℕ)
    → (reconnect h uuid agent fresh).1.name ≡ h.name
unfolding reconnect
reconnect_name h uuid agent fresh = ground arith
