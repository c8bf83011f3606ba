-- ===== src/Proxy/Taking.antt =====
-- io_mbuf_take_buffer with the credits that it gives back, and changes of one endpoint.
use testbus.Base.{
  ℕ, zero, suc, ◌+◌, ◌%◌, ◌^◌, ◌≤◌, ◌<◌, ◌≡◌, refl, List, [], ◌∷◌, Option, none, some, arith,
  get_elem?, length, ◌==◌, Bool-cases, inl, inr, ap, ==_iff, ==_refl, subst, All,
}
use testbus.Buffer.{Buffer}
use testbus.Proxy.Endpoint.{Mbuf, Endpoint, Endpoints, update, give_back, mbuf_take_buffer}
use testbus.Proxy.Credit.{
  held, owed, outstanding, credit_of, total, outstanding-update, credit-update, set_credit,
  outstanding-credit, credit_self, credit_other, Charged, nobody, source,
}

-- A source is an endpoint in memory.
abbrev pub IsSource : ℕ → Option ℕ → Type 0
IsSource n none = Unit {0}
IsSource n (some j) = j < n

abbrev pub IsQueues : ℕ → Endpoints → Type 0
IsQueues n es = All (λ e. All (λ m. IsSource n m.source) e.wqueue) es

pub length-update :
    (es : Endpoints) (i : ℕ) (f : Endpoint → Endpoint) → length (update es i f) ≡ length es
length-update [] i f = refl
length-update (e ∷ es) zero f = refl
length-update (e ∷ es) (suc i) f = ap suc (length-update es i f)

pub get_exists :
    (es : Endpoints) (j : ℕ) → j < length es → (e : Endpoint) × (get_elem? es j ≡ some e)
get_exists [] j h = absurd (omega arith)
get_exists (e ∷ es) zero h = (e, refl)
get_exists (e ∷ es) (suc j) h = get_exists es j (omega arith)

abbrev pub wqueue_of : Option Endpoint → List Mbuf
wqueue_of none = []
wqueue_of (some e) = e.wqueue

abbrev pub wbuf_of : Option Endpoint → Option Buffer
wbuf_of none = none
wbuf_of (some e) = e.wbuf

-- One endpoint's queue changes.
pub queue-total :
    (k : ℕ) (es : Endpoints) (i : ℕ) (e : Endpoint) (f : Endpoint → Endpoint)
    → get_elem? es i ≡ some e
    → ((e : Endpoint) → (f e).rx_credit ≡ e.rx_credit)
    → total k (update es i f) + owed k e.wqueue ≡ total k es + owed k (f e).wqueue
queue-total k es i e f h same =
    omega (arith, outstanding-update k es i e f h, credit-update k es i f same)

pub owed-outstanding :
    (k : ℕ) (es : Endpoints) (i : ℕ) (e : Endpoint)
    → get_elem? es i ≡ some e
    → owed k e.wqueue ≤ outstanding k es
owed-outstanding k es i e h =
    omega (arith, outstanding-update k es i e (λ e. record e { wqueue = [] }) h)

-- The credit of an mbuf is given back.
pub take-credit :
    (k : ℕ) (es : Endpoints) (m : Mbuf)
    → IsSource (length es) m.source
    → ((j : ℕ) → credit_of (get_elem? es j) + held j m.source m.buffer m.credit < 2 ^ 32)
    → credit_of (get_elem? (mbuf_take_buffer es m).1 k)
      ≡ credit_of (get_elem? es k) + held k m.source m.buffer m.credit
unfolding mbuf_take_buffer give_back
take-credit k es m s lt = go m.source m.buffer m.credit s lt
  where
    go :
        (s : Option ℕ) (b : Option Buffer) (c : ℕ)
        → IsSource (length es) s
        → ((j : ℕ) → credit_of (get_elem? es j) + held j s b c < 2 ^ 32)
        → credit_of
            (get_elem? (mbuf_take_buffer es (record { source = s; buffer = b; credit = c })).1 k)
          ≡ credit_of (get_elem? es k) + held k s b c
    go none none c s lt = omega arith
    go none (some b) c s lt = omega arith
    go (some j) none c s lt = omega arith
    go (some j) (some b) c s lt =
        let (e, here) = get_exists es j s in
        let few : e.rx_credit + c < 2 ^ 32 = ground (arith, lt j, ap credit_of here, ==_refl j) in
        elim (Bool-cases (j == k)) [
          | inl eq ↦ rw eq (
              subst
                (λ k.
                  credit_of (get_elem? (update es j (set_credit (λ n. (n + c) % 2 ^ 32))) k)
                  ≡ credit_of (get_elem? es k) + c)
                ((==_iff j k).0 eq)
                (omega
                  (arith, credit_self j es (λ n. (n + c) % 2 ^ 32) e here, ap credit_of here, few)))
          | inr ne ↦ rw ne (
              omega (
                arith,
                ap credit_of (
                    credit_other k j es (set_credit (λ n. (n + c) % 2 ^ 32))
                      (λ p. ground (arith, ne, p))),
              ))
        ]

pub take-outstanding :
    (k : ℕ) (es : Endpoints) (m : Mbuf) → outstanding k (mbuf_take_buffer es m).1 ≡ outstanding k es
unfolding mbuf_take_buffer give_back
take-outstanding k es m = go m.source m.buffer
  where
    go :
        (s : Option ℕ) (b : Option Buffer)
        → outstanding k (mbuf_take_buffer es (record m { source = s; buffer = b })).1
          ≡ outstanding k es
    go s none = refl
    go none (some b) = refl
    go (some j) (some b) = outstanding-credit k es j _

pub length-take : (es : Endpoints) (m : Mbuf) → length (mbuf_take_buffer es m).1 ≡ length es
unfolding mbuf_take_buffer give_back
length-take es m = go m.source m.buffer
  where
    go :
        (s : Option ℕ) (b : Option Buffer)
        → length (mbuf_take_buffer es (record m { source = s; buffer = b })).1 ≡ length es
    go s none = refl
    go none (some b) = refl
    go (some j) (some b) = length-update es j _

-- The other fields stay.
pub set-same :
    (e : Endpoint) (es : Endpoints) (j i : ℕ) (g : ℕ → ℕ)
    → get_elem? es i ≡ some e
    → (e' : Endpoint) × (get_elem? (update es j (set_credit g)) i ≡ some e')
      × (e'.wqueue ≡ e.wqueue)
      × (e'.wbuf ≡ e.wbuf)
set-same e [] j i g h = (e, h, refl, refl)
set-same e (x ∷ es) zero zero g h = (set_credit g x, refl, ap wqueue_of h, ap wbuf_of h)
set-same e (x ∷ es) zero (suc i) g h = (e, h, refl, refl)
set-same e (x ∷ es) (suc j) zero g h = (e, h, refl, refl)
set-same e (x ∷ es) (suc j) (suc i) g h = set-same e es j i g h

pub take-same :
    (es : Endpoints) (m : Mbuf) (i : ℕ) (e : Endpoint)
    → get_elem? es i ≡ some e
    → (e' : Endpoint) × (get_elem? (mbuf_take_buffer es m).1 i ≡ some e')
      × (e'.wqueue ≡ e.wqueue)
      × (e'.wbuf ≡ e.wbuf)
unfolding mbuf_take_buffer give_back
take-same es m i e h = go m.source m.buffer
  where
    go :
        (s : Option ℕ) (b : Option Buffer)
        → (e' : Endpoint) × (get_elem?
              (mbuf_take_buffer es (record m { source = s; buffer = b })).1
              i
            ≡ some e')
          × (e'.wqueue ≡ e.wqueue)
          × (e'.wbuf ≡ e.wbuf)
    go s none = (e, h, refl, refl)
    go none (some b) = (e, h, refl, refl)
    go (some j) (some b) = set-same e es j i _ h

pub Charged-same :
    (es : Endpoints) (s : Option ℕ) (c : ℕ) (es' : Endpoints) (i : ℕ) (e : Endpoint)
    → Charged es c s es'
    → get_elem? es i ≡ some e
    → (e' : Endpoint) × (get_elem? es' i ≡ some e') × (e'.wqueue ≡ e.wqueue) × (e'.wbuf ≡ e.wbuf)
Charged-same es _ c _ i e nobody h = (e, h, refl, refl)
Charged-same es _ c _ i e (source j e' here le) h = set-same e es j i _ h
