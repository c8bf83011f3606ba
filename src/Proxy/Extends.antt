-- ===== src/Proxy/Extends.antt =====
-- Endpoints are added, and the receive credits of the others stay.
use testbus.Base.{
  ℕ, ◌+◌, ◌^◌, ◌≤◌, ◌<◌, ◌≡◌, refl, List, [], ◌∷◌, ◌++◌, Option, none, some, arith, get_elem?,
  get_elem?-append_left, get_elem?-append_length, get_elem?-none, length, length-append, ◌==◌,
  ==_iff, ltb, Bool-cases, inl, inr, ap, sym, ◌∙◌, subst, All, All-append,
}
use testbus.Buffer.{Buffer}
use testbus.Proxy.Endpoint.{Mbuf, Endpoint, Endpoints}
use testbus.Proxy.Credit.{held, owed, outstanding, total, credit_of}
use testbus.Proxy.Taking.{IsSource, IsQueues}
use testbus.Proxy.Sound.{IsSound, Keeps, Keeps-IsSound}

-- What a handler may do: add endpoints, and keep the credits of those that are there.
pub record Extends (es es' : Endpoints) : Type 0 where
  pub size : length es ≤ length es'
  pub sound : IsSound es'
  pub same : (k : ℕ) → k < length es → total k es' ≡ total k es

pub Keeps-Extends : (es es' : Endpoints) → IsSound es → Keeps es es' → Extends es es'
Keeps-Extends es es' s k = record {
  size = omega (arith, k.size);
  sound = Keeps-IsSound es es' s k;
  same = λ j h. k.same j;
}

pub Extends-refl : (es : Endpoints) → IsSound es → Extends es es
Extends-refl es s = record { size = omega arith; sound = s; same = λ k h. refl }

pub Extends-trans : (es es' es'' : Endpoints) → Extends es es' → Extends es' es'' → Extends es es''
Extends-trans es es' es'' e f = record {
  size = omega (arith, e.size, f.size);
  sound = f.sound;
  same = λ k h. f.same k (omega (arith, h, e.size)) ∙ e.same k h;
}

-- Nothing is owed to an endpoint that is not there.
owed-beyond : (k n : ℕ) (ms : List Mbuf) → n ≤ k → All (λ m. IsSource n m.source) ms → owed k ms ≡ 0
owed-beyond k n [] h a = refl
owed-beyond k n (m ∷ ms) h a = omega (arith, go m.source m.buffer a.0, owed-beyond k n ms h a.1)
  where
    go : (s : Option ℕ) (b : Option Buffer) → IsSource n s → held k s b m.credit ≡ 0
    go none b i = refl
    go (some j) none i = refl
    go (some j) (some b) i = ground (arith, h, i)

outstanding-beyond : (k n : ℕ) (es : Endpoints) → n ≤ k → IsQueues n es → outstanding k es ≡ 0
outstanding-beyond k n [] h q = refl
outstanding-beyond k n (e ∷ es) h q =
    omega (arith, owed-beyond k n e.wqueue h q.0, outstanding-beyond k n es h q.1)

outstanding-append :
    (k : ℕ) (es fs : Endpoints) → outstanding k (es ++ fs) ≡ outstanding k es + outstanding k fs
outstanding-append k [] fs = omega arith
outstanding-append k (e ∷ es) fs = omega (arith, outstanding-append k es fs)

IsSource-more :
    (n : ℕ) (ms : List Mbuf)
    → All (λ m. IsSource n m.source) ms
    → All (λ m. IsSource (n + 1) m.source) ms
IsSource-more n [] a = tt
IsSource-more n (m ∷ ms) a = (go m.source a.0, IsSource-more n ms a.1)
  where
    go : (s : Option ℕ) → IsSource n s → IsSource (n + 1) s
    go none i = tt
    go (some j) i = omega (arith, i)

IsQueues-more : (n : ℕ) (es : Endpoints) → IsQueues n es → IsQueues (n + 1) es
IsQueues-more n [] q = tt
IsQueues-more n (e ∷ es) q = (IsSource-more n e.wqueue q.0, IsQueues-more n es q.1)

-- A new endpoint.
pub append-Extends :
    (es : Endpoints) (e : Endpoint)
    → IsSound es
    → e.wqueue ≡ []
    → e.rx_credit < 2 ^ 32
    → Extends es (es ++ e ∷ [])
append-Extends es e s q c =
    let n = length es in
    let size = length-append es (e ∷ []) in
    let nil : (n : ℕ) → All (λ m. IsSource n m.source) e.wqueue =
      λ n. subst (λ ms. All (λ m. IsSource n m.source) ms) (sym q) tt in
    let more : (k : ℕ) → outstanding k (es ++ e ∷ []) ≡ outstanding k es =
      λ k. omega (arith, outstanding-append k es (e ∷ []), ap (owed k) q) in
    let same : (k : ℕ) → k < length es → total k (es ++ e ∷ []) ≡ total k es =
      λ k h. omega (arith, more k, ap credit_of (get_elem?-append_left es (e ∷ []) k h)) in
    record {
      size = omega (arith, size);
      sound = record {
        queues =
            subst (λ n. IsQueues n (es ++ e ∷ [])) (sym size)
              (All-append _ es (e ∷ []) (IsQueues-more n es s.queues) (nil (n + 1), tt));
        bound = λ k. elim (Bool-cases (ltb k n)) [
          | inl lt ↦ omega (arith, same k (ground (arith, lt)), s.bound k)
          | inr ge ↦
              let none_owed = outstanding-beyond k n es (ground (arith, ge)) s.queues in
              elim (Bool-cases (k == n)) [
                | inl eq ↦
                    let here =
                      ap (get_elem? (es ++ e ∷ [])) ((==_iff k n).0 eq)
                      ∙ get_elem?-append_length es e [] in
                    omega (arith, none_owed, more k, ap credit_of here, c)
                | inr ne ↦
                    let gone = get_elem?-none (es ++ e ∷ []) k (ground (arith, ge, ne, size)) in
                    omega (arith, none_owed, more k, ap credit_of gone)
              ]
        ];
      };
      same = same;
    }
