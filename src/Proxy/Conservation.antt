-- ===== src/Proxy/Conservation.antt =====
-- The queue operations of proxy/main.c neither make nor lose receive credit.
use testbus.Base.{
  ℕ, zero, suc, ◌+◌, ◌^◌, ◌<◌, ◌≡◌, refl, List, [], ◌∷◌, Option, none, some, Bool, arith, get_elem?,
  length, ◌==◌, Bool-cases, Option-cases, some-injective, ◌⊎◌, inl, inr, ap, sym, ◌∙◌, ◌||◌, subst,
  All,
}
use testbus.Buffer.{Buffer, count}
use testbus.Proxy.Endpoint.{
  Mbuf, Endpoint, Endpoints, update, mbuf_take_buffer, charge, queue_write, enqueue, pull_next,
  pullup, discard_queue, write_queue_discard,
}
use testbus.Proxy.Credit.{
  held, owed, outstanding, credit_of, total, owed-append, charge-Charged, charge-total,
}
use testbus.Proxy.Taking.{
  IsSource, IsQueues, queue-total, owed-outstanding, take-credit, take-outstanding, length-take,
  take-same, Charged-same,
}

-- io_endpoint_queue_write in its two parts.
pub queue_write-parts :
    (connects : Bool) (es : Endpoints) (i : ℕ) (m : Mbuf) (es' : Endpoints)
    → queue_write connects es i m ≡ some es'
    → (e : Endpoint) × (get_elem? es i ≡ some e)
      × ((es1 : Endpoints) × (charge es m.source m.credit ≡ some es1)
          × (update es1 i (enqueue m) ≡ es'))
unfolding queue_write
queue_write-parts connects es i m es' h = elim (Option-cases (get_elem? es i)) [
  | inl gone ↦ absurd (ground (arith, h, gone))
  | inr (e, here) ↦ elim (Bool-cases (e.connected || connects)) [
    | inr refused ↦ absurd (ground (arith, h, here, refused))
    | inl ok ↦ elim (Option-cases (charge es m.source m.credit)) [
      | inl failed ↦ absurd (ground (arith, h, here, ok, failed))
      | inr (es1, charged) ↦
          (e, here, (es1, charged, some-injective (sym (ground (arith, here, ok, charged)) ∙ h)))
    ]
  ]
]

-- A successful io_endpoint_queue_write of an mbuf with a buffer keeps every endpoint's credit, together
-- with what is queued for it.
pub queue_write-total :
    (connects : Bool) (es : Endpoints) (i : ℕ) (m : Mbuf) (bp : Buffer) (es' : Endpoints)
    → m.buffer ≡ some bp
    → queue_write connects es i m ≡ some es'
    → (k : ℕ) → total k es' ≡ total k es
queue_write-total connects es i m bp es' b h k =
    let (e, here, parts) = queue_write-parts connects es i m es' h in
    let (es1, charged, same) = parts in
    let c = charge-Charged es m.source m.credit es1 charged in
    let (e1, here1, q, w) = Charged-same es m.source m.credit es1 i e c here in
    omega (
      arith,
      charge-total k es m.source bp m.credit es1 c,
      ap (total k) same,
      queue-total k es1 i e1 (enqueue m) here1 (λ e. refl),
      owed-append k e1.wqueue (m ∷ []),
      ap (λ o. held k m.source o m.credit) b,
    )

pub IsQueues-at :
    (n : ℕ) (es : Endpoints) (i : ℕ) (e : Endpoint)
    → IsQueues n es
    → get_elem? es i ≡ some e
    → All (λ m. IsSource n m.source) e.wqueue
IsQueues-at n [] i e q h = ground (arith, h)
IsQueues-at n (x ∷ es) zero e q h =
    subst (λ e. All (λ m. IsSource n m.source) e.wqueue) (some-injective h) q.0
IsQueues-at n (x ∷ es) (suc i) e q h = IsQueues-at n es i e q.1 h

pull_next-total :
    (es : Endpoints) (i : ℕ) (e : Endpoint)
    → get_elem? es i ≡ some e
    → All (λ m. IsSource (length es) m.source) e.wqueue
    → ((j : ℕ) → total j es < 2 ^ 32)
    → (k : ℕ) → total k (pull_next es i e.wqueue).1 ≡ total k es
unfolding pull_next
pull_next-total es i e here s lt k = go e.wqueue refl s
  where
    go :
        (ms : List Mbuf)
        → e.wqueue ≡ ms
        → All (λ m. IsSource (length es) m.source) ms
        → total k (pull_next es i ms).1 ≡ total k es
    go [] eq s = refl
    go (m ∷ ms) eq s =
        let few : (j : ℕ)
            → credit_of (get_elem? es j) + held j m.source m.buffer m.credit < 2 ^ 32 =
          λ j. omega (arith, lt j, owed-outstanding j es i e here, ap (owed j) eq) in
        let (e', here', q, w) = take-same es m i e here in
        omega (
          arith,
          take-credit k es m s.0 few,
          take-outstanding k es m,
          ap (owed k) q,
          ap (owed k) eq,
          queue-total k (mbuf_take_buffer es m).1 i e'
              (λ e. record e { wbuf = (mbuf_take_buffer es m).0; wqueue = ms }) here' (λ e. refl),
        )

-- What io_endpoint_pullup does where its assertion holds: nothing, or it takes from the queue.
pub pullup-cases :
    (es : Endpoints) (i : ℕ) (o : Option Buffer) (es' : Endpoints)
    → pullup es i ≡ some (o, es')
    → (es ≡ es')
      ⊎ ((e : Endpoint) × (get_elem? es i ≡ some e) × ((pull_next es i e.wqueue).1 ≡ es'))
unfolding pullup
pullup-cases es i o es' h = elim (Option-cases (get_elem? es i)) [
  | inl gone ↦ absurd (ground (arith, h, gone))
  | inr (e, here) ↦ elim (Option-cases e.wbuf) [
    | inl empty ↦
        let same : pull_next es i e.wqueue ≡ (o, es') =
          some-injective (sym (ground (arith, here, empty)) ∙ h) in
        inr (e, here, ap (λ r. r.1) same)
    | inr (bp, full) ↦ elim (Bool-cases (count bp == 0)) [
      | inl bad ↦ absurd (ground (arith, h, here, full, bad))
      | inr good ↦
          let same : (some bp, es) ≡ (o, es') =
            some-injective (sym (ground (arith, here, full, good)) ∙ h) in
          inl (ap (λ r. r.1) same)
    ]
  ]
]

-- The same for io_endpoint_pullup, if every mbuf in a queue has a source in memory, and an unsigned int
-- holds the credits.
pub pullup-total :
    (es : Endpoints) (i : ℕ) (o : Option Buffer) (es' : Endpoints)
    → IsQueues (length es) es
    → ((j : ℕ) → total j es < 2 ^ 32)
    → pullup es i ≡ some (o, es')
    → (k : ℕ) → total k es' ≡ total k es
pullup-total es i o es' q lt h k = elim (pullup-cases es i o es' h) [
  | inl same ↦ ap (total k) (sym same)
  | inr (e, here, same) ↦
      ap (total k) (sym same) ∙ pull_next-total es i e here (IsQueues-at _ es i e q here) lt k
]

discard-credit :
    (k : ℕ) (ms : List Mbuf) (es : Endpoints)
    → All (λ m. IsSource (length es) m.source) ms
    → ((j : ℕ) → credit_of (get_elem? es j) + owed j ms < 2 ^ 32)
    → (credit_of (get_elem? (discard_queue es ms) k) ≡ credit_of (get_elem? es k) + owed k ms)
      × (outstanding k (discard_queue es ms) ≡ outstanding k es)
unfolding discard_queue
discard-credit k [] es s lt = (omega arith, refl)
discard-credit k (m ∷ ms) es s lt =
    let es1 = (mbuf_take_buffer es m).1 in
    let few : (j : ℕ) → credit_of (get_elem? es j) + held j m.source m.buffer m.credit < 2 ^ 32 =
      λ j. omega (arith, lt j) in
    let (c, o) =
      discard-credit k ms es1
        (subst (λ n. All (λ m. IsSource n m.source) ms) (sym (length-take es m)) s.1)
        (λ j. omega (arith, lt j, take-credit j es m s.0 few)) in
    (omega (arith, c, take-credit k es m s.0 few), o ∙ take-outstanding k es m)

discard-same :
    (ms : List Mbuf) (es : Endpoints) (i : ℕ) (e : Endpoint)
    → get_elem? es i ≡ some e
    → (e' : Endpoint) × (get_elem? (discard_queue es ms) i ≡ some e') × (e'.wqueue ≡ e.wqueue)
unfolding discard_queue
discard-same [] es i e h = (e, h, refl)
discard-same (m ∷ ms) es i e h =
    let (e1, h1, q1, w1) = take-same es m i e h in
    let (e2, h2, q2) = discard-same ms (mbuf_take_buffer es m).1 i e1 h1 in (e2, h2, q2 ∙ q1)

-- The same for io_endpoint_write_queue_discard.
pub write_queue_discard-total :
    (es : Endpoints) (i : ℕ)
    → IsQueues (length es) es
    → ((j : ℕ) → total j es < 2 ^ 32)
    → (k : ℕ) → total k (write_queue_discard es i) ≡ total k es
unfolding write_queue_discard
write_queue_discard-total es i q lt k = elim (Option-cases (get_elem? es i)) [
  | inl gone ↦ rw (gone, write_queue_discard) refl
  | inr (e, here) ↦
      let few : (j : ℕ) → credit_of (get_elem? es j) + owed j e.wqueue < 2 ^ 32 =
        λ j. omega (arith, lt j, owed-outstanding j es i e here) in
      let (c, o) = discard-credit k e.wqueue es (IsQueues-at _ es i e q here) few in
      let (e', here', w) = discard-same e.wqueue es i e here in
      let f : Endpoint → Endpoint = λ e. record e { wbuf = none; wqueue = [] } in
      rw (here, write_queue_discard)
        (omega (
          arith,
          c,
          o,
          ap (owed k) w,
          queue-total k (discard_queue es e.wqueue) i e' f here' (λ e. refl),
        ))
]
