-- ===== src/Proxy/Sound.antt =====
-- Every handler of proxy/main.c keeps the receive credits, over shutting down of connections too.
use testbus.Base.{
  ℕ, zero, suc, ◌^◌, ◌<◌, ◌≡◌, refl, List, [], ◌∷◌, Option, none, some, arith, get_elem?, length,
  Option-cases, inl, inr, ap, sym, ◌∙◌, subst, All,
}
use testbus.Buffer.{Buffer}
use testbus.Proxy.Endpoint.{
  Mbuf, Endpoint, Endpoints, update, give_back, mbuf_take_buffer, pull_next, pullup, discard_queue,
  write_queue_discard,
}
use testbus.Proxy.Credit.{total, owed}
use testbus.Proxy.Taking.{IsSource, IsQueues, queue-total, length-update, length-take}
use testbus.Proxy.Conservation.{pullup-total, write_queue_discard-total, pullup-cases, IsQueues-at}

-- Sources are in memory, and an unsigned int holds every credit with what is queued for it.
pub record IsSound (es : Endpoints) : Type 0 where
  pub queues : IsQueues (length es) es
  pub bound : (k : ℕ) → total k es < 2 ^ 32

-- What an operation may do to the endpoints.
pub record Keeps (es es' : Endpoints) : Type 0 where
  pub size : length es' ≡ length es
  pub queues : IsQueues (length es) es'
  pub same : (k : ℕ) → total k es' ≡ total k es

pub Keeps-IsSound : (es es' : Endpoints) → IsSound es → Keeps es es' → IsSound es'
Keeps-IsSound es es' s k = record {
  queues = subst (λ n. IsQueues n es') (sym k.size) k.queues;
  bound = λ j. omega (arith, s.bound j, k.same j);
}

pub Keeps-trans : (es es' es'' : Endpoints) → Keeps es es' → Keeps es' es'' → Keeps es es''
Keeps-trans es es' es'' k l = record {
  size = l.size ∙ k.size;
  queues = subst (λ n. IsQueues n es'') k.size l.queues;
  same = λ j. l.same j ∙ k.same j;
}

pub IsQueues-update :
    (n : ℕ) (es : Endpoints) (i : ℕ) (f : Endpoint → Endpoint)
    → ((e : Endpoint)
        → All (λ m. IsSource n m.source) e.wqueue
        → All (λ m. IsSource n m.source) (f e).wqueue)
    → IsQueues n es
    → IsQueues n (update es i f)
IsQueues-update n [] i f h q = q
IsQueues-update n (e ∷ es) zero f h q = (h e q.0, q.1)
IsQueues-update n (e ∷ es) (suc i) f h q = (q.0, IsQueues-update n es i f h q.1)

update_nothing :
    (es : Endpoints) (i : ℕ) (f : Endpoint → Endpoint) → get_elem? es i ≡ none → update es i f ≡ es
update_nothing [] i f h = refl
update_nothing (e ∷ es) zero f h = absurd (ground (arith, h))
update_nothing (e ∷ es) (suc i) f h = ap (◌∷◌ e) (update_nothing es i f h)

-- A change of other fields.
pub update-Keeps :
    (es : Endpoints) (i : ℕ) (f : Endpoint → Endpoint)
    → ((e : Endpoint) → (f e).rx_credit ≡ e.rx_credit)
    → ((e : Endpoint) → (f e).wqueue ≡ e.wqueue)
    → IsSound es
    → Keeps es (update es i f)
update-Keeps es i f c q s = record {
  size = length-update es i f;
  queues =
      IsQueues-update (length es) es i f
        (λ e. subst (λ ms. All (λ m. IsSource (length es) m.source) ms) (sym (q e))) s.queues;
  same = same;
}
  where
    same : (k : ℕ) → total k (update es i f) ≡ total k es
    same k = elim (Option-cases (get_elem? es i)) [
      | inl gone ↦ ap (total k) (update_nothing es i f gone)
      | inr (e, here) ↦ omega (arith, queue-total k es i e f here c, ap (owed k) (q e))
    ]

IsQueues-take :
    (n : ℕ) (es : Endpoints) (m : Mbuf) → IsQueues n es → IsQueues n (mbuf_take_buffer es m).1
unfolding mbuf_take_buffer give_back
IsQueues-take n es m q = go m.source m.buffer
  where
    go :
        (s : Option ℕ) (b : Option Buffer)
        → IsQueues n (mbuf_take_buffer es (record m { source = s; buffer = b })).1
    go s none = q
    go none (some b) = q
    go (some j) (some b) = IsQueues-update n es j _ (λ e a. a) q

IsQueues-discard :
    (n : ℕ) (ms : List Mbuf) (es : Endpoints)
    → IsQueues n es
    → IsQueues n (discard_queue es ms) × (length (discard_queue es ms) ≡ length es)
unfolding discard_queue
IsQueues-discard n [] es q = (q, refl)
IsQueues-discard n (m ∷ ms) es q =
    let (r, l) = IsQueues-discard n ms (mbuf_take_buffer es m).1 (IsQueues-take n es m q) in
    (r, l ∙ length-take es m)

IsQueues-pull_next :
    (es : Endpoints) (i : ℕ) (ms : List Mbuf)
    → IsQueues (length es) es
    → All (λ m. IsSource (length es) m.source) ms
    → IsQueues (length es) (pull_next es i ms).1 × (length (pull_next es i ms).1 ≡ length es)
unfolding pull_next
IsQueues-pull_next es i [] q a = (q, refl)
IsQueues-pull_next es i (m ∷ ms) q a =
    let f : Endpoint → Endpoint = λ e. record e { wbuf = (mbuf_take_buffer es m).0; wqueue = ms } in
    (
      IsQueues-update (length es) (mbuf_take_buffer es m).1 i f (λ e x. a.1)
          (IsQueues-take (length es) es m q),
      length-update (mbuf_take_buffer es m).1 i f ∙ length-take es m,
    )

-- io_endpoint_pullup
pub pullup-Keeps :
    (es : Endpoints) (i : ℕ) (o : Option Buffer) (es' : Endpoints)
    → IsSound es
    → pullup es i ≡ some (o, es')
    → Keeps es es'
pullup-Keeps es i o es' s h =
    let t = pullup-total es i o es' s.queues s.bound h in
    elim (pullup-cases es i o es' h) [
      | inl same ↦ record {
        size = ap length (sym same);
        queues = subst (IsQueues (length es)) same s.queues;
        same = t;
      }
      | inr (e, here, same) ↦
          let (q, l) =
            IsQueues-pull_next es i e.wqueue s.queues
              (IsQueues-at (length es) es i e s.queues here) in
          record {
            size = ap length (sym same) ∙ l;
            queues = subst (IsQueues (length es)) same q;
            same = t;
          }
    ]

-- io_endpoint_write_queue_discard
pub discard-Keeps : (es : Endpoints) (i : ℕ) → IsSound es → Keeps es (write_queue_discard es i)
unfolding write_queue_discard
discard-Keeps es i s =
    let t = write_queue_discard-total es i s.queues s.bound in
    elim (Option-cases (get_elem? es i)) [
      | inl gone ↦
          let same : write_queue_discard es i ≡ es = rw (write_queue_discard, gone) refl in
          record {
            size = ap length same;
            queues = subst (IsQueues (length es)) (sym same) s.queues;
            same = t;
          }
      | inr (e, here) ↦
          let f : Endpoint → Endpoint = λ e. record e { wbuf = none; wqueue = [] } in
          let same : write_queue_discard es i ≡ update (discard_queue es e.wqueue) i f =
            rw (write_queue_discard, here) refl in
          let (q, l) = IsQueues-discard (length es) e.wqueue es s.queues in
          record {
            size = ap length same ∙ length-update (discard_queue es e.wqueue) i f ∙ l;
            queues =
                subst (IsQueues (length es)) (sym same)
                  (IsQueues-update (length es) (discard_queue es e.wqueue) i f (λ e x. tt) q);
            same = t;
          }
    ]
