-- ===== src/Proxy/Credit.antt =====
-- Receive credits of the proxy's endpoints: a byte that is queued is charged to its source until it is
-- taken from the queue.
use testbus.Base.{
  ℕ, zero, suc, ◌+◌, ◌-◌, ◌≤◌, ◌≡◌, ◌≢◌, refl, List, [], ◌∷◌, ◌++◌, Option, none, some, arith,
  get_elem?, if◌then◌else◌, ◌==◌, leb, ==_iff, subst, Bool-cases, Option-cases, some-injective, inl,
  inr, ap, sym, ◌∙◌,
}
use testbus.Buffer.{Buffer}
use testbus.Proxy.Endpoint.{Mbuf, Endpoint, Endpoints, update, charge}

-- What an mbuf holds of the credit of endpoint `k`.
abbrev pub held : ℕ → Option ℕ → Option Buffer → ℕ → ℕ
held k none bp credit = 0
held k (some j) none credit = 0
held k (some j) (some bp) credit = if j == k then credit else 0

abbrev pub owed : ℕ → List Mbuf → ℕ
owed k [] = 0
owed k (m ∷ ms) = held k m.source m.buffer m.credit + owed k ms

-- In all queues.
abbrev pub outstanding : ℕ → Endpoints → ℕ
outstanding k [] = 0
outstanding k (e ∷ es) = owed k e.wqueue + outstanding k es

abbrev pub credit_of : Option Endpoint → ℕ
credit_of none = 0
credit_of (some e) = e.rx_credit

-- The credit of endpoint `k`, and what its bytes in the queues hold of it.
abbrev pub total : ℕ → Endpoints → ℕ
total k es = credit_of (get_elem? es k) + outstanding k es

pub owed-append : (k : ℕ) (ms ns : List Mbuf) → owed k (ms ++ ns) ≡ owed k ms + owed k ns
owed-append k [] ns = omega arith
owed-append k (m ∷ ms) ns = omega (arith, owed-append k ms ns)

-- A change of one endpoint.
pub outstanding-update :
    (k : ℕ) (es : Endpoints) (i : ℕ) (e : Endpoint) (f : Endpoint → Endpoint)
    → get_elem? es i ≡ some e
    → outstanding k (update es i f) + owed k e.wqueue ≡ outstanding k es + owed k (f e).wqueue
outstanding-update k [] i e f h = ground (arith, h)
outstanding-update k (x ∷ es) zero e f h =
    let same = ap (λ e. owed k e.wqueue) (some-injective h) in
    let same' = ap (λ e. owed k (f e).wqueue) (some-injective h) in omega (arith, same, same')
outstanding-update k (x ∷ es) (suc i) e f h = omega (arith, outstanding-update k es i e f h)

pub credit-update :
    (k : ℕ) (es : Endpoints) (i : ℕ) (f : Endpoint → Endpoint)
    → ((e : Endpoint) → (f e).rx_credit ≡ e.rx_credit)
    → credit_of (get_elem? (update es i f) k) ≡ credit_of (get_elem? es k)
credit-update k [] i f h = refl
credit-update zero (x ∷ es) zero f h = h x
credit-update (suc k) (x ∷ es) zero f h = refl
credit-update zero (x ∷ es) (suc i) f h = refl
credit-update (suc k) (x ∷ es) (suc i) f h = credit-update k es i f h

-- A change of one credit.
abbrev pub set_credit : (ℕ → ℕ) → Endpoint → Endpoint
set_credit g e = record e { rx_credit = g e.rx_credit }

pub outstanding-credit :
    (k : ℕ) (es : Endpoints) (j : ℕ) (g : ℕ → ℕ)
    → outstanding k (update es j (set_credit g)) ≡ outstanding k es
outstanding-credit k [] j g = refl
outstanding-credit k (x ∷ es) zero g = refl
outstanding-credit k (x ∷ es) (suc j) g =
    ap (λ n. owed k x.wqueue + n) (outstanding-credit k es j g)

pub credit_self :
    (k : ℕ) (es : Endpoints) (g : ℕ → ℕ) (e : Endpoint)
    → get_elem? es k ≡ some e
    → credit_of (get_elem? (update es k (set_credit g)) k) ≡ g e.rx_credit
credit_self k [] g e h = ground (arith, h)
credit_self zero (x ∷ es) g e h = ap g (ap credit_of h)
credit_self (suc k) (x ∷ es) g e h = credit_self k es g e h

pub credit_other :
    (k j : ℕ) (es : Endpoints) (f : Endpoint → Endpoint)
    → j ≢ k
    → get_elem? (update es j f) k ≡ get_elem? es k
credit_other k j [] f h = refl
credit_other zero zero (x ∷ es) f h = absurd (h refl)
credit_other (suc k) zero (x ∷ es) f h = refl
credit_other zero (suc j) (x ∷ es) f h = refl
credit_other (suc k) (suc j) (x ∷ es) f h = credit_other k j es f (λ e. h (ap suc e))

set-total :
    (k : ℕ) (es : Endpoints) (j : ℕ) (g : ℕ → ℕ) (e : Endpoint)
    → get_elem? es j ≡ some e
    → total k (update es j (set_credit g)) + (if j == k then e.rx_credit else 0)
      ≡ total k es + (if j == k then g e.rx_credit else 0)
set-total k es j g e h = elim (Bool-cases (j == k)) [
  | inl eq ↦ rw eq (
      subst (λ k. total k (update es j (set_credit g)) + e.rx_credit ≡ total k es + g e.rx_credit)
        ((==_iff j k).0 eq)
        (omega (arith, credit_self j es g e h, outstanding-credit j es j g, ap credit_of h)))
  | inr ne ↦ rw ne (
      omega (
        arith,
        ap credit_of (credit_other k j es (set_credit g) (λ p. ground (arith, ne, p))),
        outstanding-credit k es j g,
      ))
]

pub data Charged (es : Endpoints) (c : ℕ) : Option ℕ → Endpoints → Type 0 where
  nobody : Charged es c none es
  source :
      (j : ℕ) (e : Endpoint)
      → get_elem? es j ≡ some e
      → c ≤ e.rx_credit
      → Charged es c (some j) (update es j (set_credit (λ n. n - c)))

pub charge-Charged :
    (es : Endpoints) (s : Option ℕ) (c : ℕ) (es' : Endpoints)
    → charge es s c ≡ some es'
    → Charged es c s es'
unfolding charge
charge-Charged es none c es' h = subst (Charged es c none) (some-injective h) nobody
charge-Charged es (some j) c es' h = elim (Option-cases (get_elem? es j)) [
  | inl gone ↦ absurd (ground (arith, h, gone))
  | inr (e, here) ↦ elim (Bool-cases (leb c e.rx_credit)) [
    | inl le ↦
        subst (Charged es c (some j)) (some-injective (sym (ground (arith, here, le)) ∙ h))
          (source j e here (ground (arith, le)))
    | inr gt ↦ absurd (ground (arith, h, here, gt))
  ]
]

-- The bytes that a source is charged for are owed to it.
pub charge-total :
    (k : ℕ) (es : Endpoints) (s : Option ℕ) (bp : Buffer) (c : ℕ) (es' : Endpoints)
    → Charged es c s es'
    → total k es' + held k s (some bp) c ≡ total k es
charge-total k es _ bp c _ nobody = omega arith
charge-total k es _ bp c _ (source j e here le) =
    ground (arith, set-total k es j (λ n. n - c) e here, le)
