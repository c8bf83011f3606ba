-- ===== src/Host/Agent.antt =====
-- The connection of a host to its agent.
use testbus.Base.{
  ℕ, ◌≡◌, refl, List, [], ◌∷◌, ◌++◌, none, some, true, false, arith, CString, str_eq, str_eq_iff,
  string_eq_iff, is_none, if◌then◌else◌,
}
use testbus.Host.{
  Host, contains, reconnect, Event, signals_ready, disconnects, reconnects, gains, claims, unclaims,
  owner_goes, handle,
}

-- No string stands twice in the list.
abbrev pub IsUniq : List CString → Type 0
IsUniq [] = Unit {0}
IsUniq (x ∷ xs) = (contains xs x ≡ false) × IsUniq xs

contains-append :
    (xs : List CString) (c s : CString)
    → contains (xs ++ c ∷ []) s ≡ (if contains xs s then true else str_eq c s)
unfolding contains
contains-append [] c s = ground arith
contains-append (x ∷ xs) c s = ground (arith, contains-append xs c s)

IsUniq-append :
    (xs : List CString) (c : CString) → IsUniq xs → contains xs c ≡ false → IsUniq (xs ++ c ∷ [])
unfolding contains
IsUniq-append [] c u n = (refl, tt)
IsUniq-append (x ∷ xs) c u n =
    ground
      (arith, u, contains-append xs c x, str_eq_iff c x, str_eq_iff x c, IsUniq-append xs c u.1)

-- A host that is ready has an agent, and its capabilities are unique.
pub record IsValid (h : Host) : Type 0 where
  pub served : h.ready ≡ true → is_none h.agent_bus_name ≡ false
  pub uniq : IsUniq h.capabilities

reconnect-IsValid :
    (h : Host) (uuid : List ℕ) (agent : CString) (fresh : List ℕ)
    → IsValid h
    → IsValid (reconnect h uuid agent fresh).1
unfolding reconnect
reconnect-IsValid h uuid agent fresh v = record {
  served = λ r. ground (arith, r, v.served);
  uniq = ground (arith, v.uniq);
}

-- Whatever happens to a host, it is ready only while an agent serves it, and no capability is
-- listed twice.
pub handle-IsValid : (h : Host) (e : Event) → IsValid h → IsValid (handle h e)
unfolding handle
handle-IsValid h (signals_ready sender) v = record {
  served = λ r. ground (arith, r, v.served, string_eq_iff h.agent_bus_name (some sender));
  uniq = ground (arith, v.uniq);
}
handle-IsValid h disconnects v = record { served = λ r. cc; uniq = tt }
handle-IsValid h (reconnects uuid agent fresh) v = reconnect-IsValid h uuid agent fresh v
handle-IsValid h (gains none) v = v
handle-IsValid h (gains (some c)) v = record {
  served = λ r. ground (arith, r, v.served);
  uniq = ground (arith, v.uniq, IsUniq-append h.capabilities c v.uniq);
}
handle-IsValid h (claims role owner) v = record {
  served = λ r. ground (arith, r, v.served);
  uniq = ground (arith, v.uniq);
}
handle-IsValid h unclaims v = record { served = v.served; uniq = v.uniq }
handle-IsValid h (owner_goes owner) v = record {
  served = λ r. ground (arith, r, v.served);
  uniq = ground (arith, v.uniq);
}
