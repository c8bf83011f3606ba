-- ===== src/Host/Claim.antt =====
-- Who has claimed a host, and for which role.
use testbus.Base.{
  ℕ, ◌≡◌, refl, ◌≢◌, ◌⊎◌, ap, str_eq, str_eq_iff, ◌&&◌, is_none, none, some, true, arith, CString,
  string_eq, string_eq_iff, ◌==◌, ==_iff, Bool-cases, Option-cases, inl, inr,
}
use testbus.Host.{
  Host, same_claim, set_role, Event, signals_ready, disconnects, reconnects, gains, claims,
  unclaims, owner_goes, handle,
}

-- A host has a role exactly when it has an owner.
abbrev pub IsConsistent : Host → Type 0
IsConsistent h = is_none h.role ≡ is_none h.owner

-- On a host that has a role exactly when it has an owner, a claim that succeeds finds the host free,
-- or claimed so already, and leaves it with that role and owner. From then on a claim succeeds
-- exactly if it repeats that one, and none changes the host.
pub claim_exclusive :
    (h : Host) (r r' : CString) (o o' : ℕ)
    → IsConsistent h
    → (set_role h (some r) (some o)).0 ≡ true
    → let h' = (set_role h (some r) (some o)).1 in
      (((h.role ≡ none) × (h.owner ≡ none)) ⊎ (h' ≡ h))
      × (h'.role ≡ some r)
      × (h'.owner ≡ some o)
      × (set_role h' (some r') (some o') ≡ (str_eq r r' && o == o', h'))
unfolding set_role string_eq
claim_exclusive h r r' o o' c s = elim (Option-cases h.role) [
  | inl free ↦ (
    inl (free, ground (arith, free, c)),
    ground (arith, free),
    ground (arith, free),
    ground (arith, free),
  )
  | inr (old, taken) ↦ elim (Bool-cases (same_claim h (some r) o)) [
    | inl again ↦ (
      inr (ground (arith, taken, again)),
      ground (arith, taken, again, string_eq_iff h.role (some r)),
      ground (arith, taken, again),
      ground (arith, taken, again, string_eq_iff h.role (some r), str_eq_iff old r),
    )
    | inr other ↦ ground (arith, taken, other, s)
  ]
]

-- Every event leaves a host that has a role exactly when it has an owner so.
pub handle-IsConsistent : (h : Host) (e : Event) → IsConsistent h → IsConsistent (handle h e)
unfolding handle
handle-IsConsistent h (signals_ready sender) c = ground arith
handle-IsConsistent h disconnects c = c
handle-IsConsistent h (reconnects uuid agent fresh) c = ground arith
handle-IsConsistent h (gains none) c = c
handle-IsConsistent h (gains (some x)) c = ground arith
handle-IsConsistent h (claims role owner) c = ground arith
handle-IsConsistent h unclaims c = refl
handle-IsConsistent h (owner_goes owner) c = ground arith

-- While a host is claimed, no event but giving up the claim, or the end of its owner, changes whose
-- it is: not its agent's coming and going, and no other claim.
pub claim_kept :
    (h : Host) (e : Event) (r : CString) (o : ℕ)
    → h.role ≡ some r
    → h.owner ≡ some o
    → e ≢ unclaims
    → e ≢ owner_goes o
    → ((handle h e).role ≡ some r) × ((handle h e).owner ≡ some o)
unfolding handle
claim_kept h (signals_ready sender) r o hr ho n m = ground (arith, hr, ho)
claim_kept h disconnects r o hr ho n m = (hr, ho)
claim_kept h (reconnects uuid agent fresh) r o hr ho n m = ground (arith, hr, ho)
claim_kept h (gains none) r o hr ho n m = (hr, ho)
claim_kept h (gains (some c)) r o hr ho n m = ground (arith, hr, ho)
claim_kept h (claims role owner) r o hr ho n m = ground (arith, hr, ho)
claim_kept h unclaims r o hr ho n m = absurd (n refl)
claim_kept h (owner_goes owner) r o hr ho n m = ground (arith, hr, ho, ==_iff o owner, same owner m)
  where
    same : (owner : ℕ) → owner_goes owner ≢ owner_goes o → owner ≢ o
    same owner m e = m (ap owner_goes e)
