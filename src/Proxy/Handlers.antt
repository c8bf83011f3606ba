-- ===== src/Proxy/Handlers.antt =====
-- The handlers of proxy/main.c keep the receive credits, over shutting down of connections too.
use testbus.Base.{
  ℕ, ◌≡◌, refl, [], ◌∷◌, Option, none, some, Bool, true, not, ◌&&◌, arith, get_elem?, length,
  if◌then◌else◌, Bool-cases, Option-cases, some-injective, inl, inr, ap, sym, ◌∙◌, subst,
  All-append, is_none,
}
use testbus.Buffer.{Buffer}
use testbus.Proxy.Endpoint.{
  Mbuf, Side, upstream, downstream, Endpoint, Endpoints, update, queue_write, enqueue, pullup,
  write_queue_discard,
}
use testbus.Proxy.Credit.{Charged, nobody, source, charge-Charged}
use testbus.Proxy.Taking.{IsSource, IsQueues, length-update}
use testbus.Proxy.Conservation.{queue_write-parts, queue_write-total}
use testbus.Proxy.Sound.{
  IsSound, Keeps, Keeps-IsSound, Keeps-trans, IsQueues-update, update-Keeps, pullup-Keeps,
  discard-Keeps,
}
use testbus.Proxy.Channel.{
  Proxy, How, shut_rd, shut_rdwr, shutdown_reads, shutdown_writes, finish_shutdown, shutdown,
  halfclose, bury, reads, writes, change, Transport, link_garbage,
}

Keeps-refl : (es : Endpoints) → IsSound es → Keeps es es
Keeps-refl es s = record { size = refl; queues = s.queues; same = λ k. refl }

charge-IsQueues :
    (n : ℕ) (es : Endpoints) (s : Option ℕ) (c : ℕ) (es' : Endpoints)
    → Charged es c s es'
    → IsQueues n es
    → IsQueues n es' × (length es' ≡ length es)
charge-IsQueues n es _ c _ nobody q = (q, refl)
charge-IsQueues n es _ c _ (source j e here le) q =
    (IsQueues-update n es j _ (λ e a. a) q, length-update es j _)

-- io_endpoint_queue_write
pub queue_write-Keeps :
    (connects : Bool) (es : Endpoints) (i : ℕ) (m : Mbuf) (bp : Buffer) (es' : Endpoints)
    → IsSound es
    → IsSource (length es) m.source
    → m.buffer ≡ some bp
    → queue_write connects es i m ≡ some es'
    → Keeps es es'
queue_write-Keeps connects es i m bp es' s src b h =
    let (e, here, parts) = queue_write-parts connects es i m es' h in
    let (es1, charged, same) = parts in
    let (q, l) =
      charge-IsQueues (length es) es m.source m.credit es1
        (charge-Charged es m.source m.credit es1 charged) s.queues in
    let n = length es in
    record {
      size = ap length (sym same) ∙ length-update es1 i (enqueue m) ∙ l;
      queues = subst (IsQueues (length es)) same (
          IsQueues-update (length es) es1 i (enqueue m)
            (λ e a. All-append (λ m. IsSource n m.source) e.wqueue (m ∷ []) a (src, tt)) q);
      same = queue_write-total connects es i m bp es' b h;
    }

shutdown_writes-Keeps :
    (es : Endpoints) (i : ℕ) (es' : Endpoints)
    → IsSound es
    → shutdown_writes es i ≡ some es'
    → Keeps es es'
unfolding shutdown_writes
shutdown_writes-Keeps es i es' s h = elim (Option-cases (pullup es i)) [
  | inl bad ↦ absurd (ground (arith, h, bad))
  | inr (r, pulled) ↦
      let k = pullup-Keeps es i r.0 r.1 s pulled in
      let f : Endpoint → Endpoint = λ e. record e { wfd = none } in
      let t = Keeps-IsSound es r.1 s k in
      let same : update (if is_none r.0 then r.1 else write_queue_discard r.1 i) i f ≡ es' =
        some-injective (sym (rw (shutdown_writes, pulled) refl) ∙ h) in
      subst (Keeps es) same (elim (Bool-cases (is_none r.0)) [
        | inl nothing ↦
            rw nothing (Keeps-trans es r.1 _ k (update-Keeps r.1 i f (λ e. refl) (λ e. refl) t))
        | inr some_left ↦ rw some_left (
            let d = discard-Keeps r.1 i t in
            Keeps-trans es r.1 _ k (
              Keeps-trans r.1 _ _ d
                (update-Keeps _ i f (λ e. refl) (λ e. refl) (Keeps-IsSound _ _ t d))))
      ])
]

pub change-endpoints :
    (p : Proxy) (s : Side) (f : Transport → Transport) → (change p s f).endpoints ≡ p.endpoints
unfolding change
change-endpoints p upstream f = refl
change-endpoints p downstream f = refl

pub bury-endpoints : (p : Proxy) (i : ℕ) (e : Endpoint) → (bury p i e).endpoints ≡ p.endpoints
unfolding bury
bury-endpoints p i e = elim (Bool-cases (is_none e.rfd && is_none e.wfd)) [
  | inl dead ↦ rw dead (change-endpoints p e.transport (link_garbage i))
  | inr alive ↦ rw alive refl
]

shutdown_reads-Keeps :
    (es : Endpoints) (i : ℕ) (e : Endpoint) (how : How)
    → IsSound es
    → Keeps es (shutdown_reads es i e how)
unfolding shutdown_reads
shutdown_reads-Keeps es i e how s = elim (Bool-cases (not (is_none e.rfd) && reads how)) [
  | inl on ↦ rw on (update-Keeps es i (λ e. record e { rfd = none }) (λ e. refl) (λ e. refl) s)
  | inr off ↦ rw off (Keeps-refl es s)
]

finish_shutdown-Keeps :
    (p : Proxy) (i : ℕ) (r : Option Endpoints) (p' : Proxy)
    → finish_shutdown p i r ≡ some p'
    → r ≡ some p'.endpoints
unfolding finish_shutdown
finish_shutdown-Keeps p i none p' h = absurd (ground (arith, h))
finish_shutdown-Keeps p i (some es) p' h = elim (Option-cases (get_elem? es i)) [
  | inl gone ↦ absurd (ground (arith, h, gone))
  | inr (e, here) ↦
      let same : bury (record p { endpoints = es }) i e ≡ p' =
        some-injective (sym (rw (finish_shutdown, here) refl) ∙ h) in
      ap some (sym (bury-endpoints (record p { endpoints = es }) i e) ∙ ap (λ p. p.endpoints) same)
]

-- io_endpoint_shutdown
pub shutdown-Keeps :
    (p : Proxy) (i : ℕ) (how : How) (p' : Proxy)
    → IsSound p.endpoints
    → shutdown p i how ≡ some p'
    → Keeps p.endpoints p'.endpoints
unfolding shutdown
shutdown-Keeps p i how p' s h = elim (Option-cases (get_elem? p.endpoints i)) [
  | inl gone ↦ absurd (ground (arith, h, gone))
  | inr (e, here) ↦
      let es = shutdown_reads p.endpoints i e how in
      let k = shutdown_reads-Keeps p.endpoints i e how s in
      let t = Keeps-IsSound p.endpoints es s k in
      let did =
        finish_shutdown-Keeps p i
          (if not (is_none e.wfd) && writes how then shutdown_writes es i else some es) p'
          (sym (rw (shutdown, here) refl) ∙ h) in
      Keeps-trans p.endpoints es p'.endpoints k
        (elim (Bool-cases (not (is_none e.wfd) && writes how)) [
          | inl on ↦ shutdown_writes-Keeps es i p'.endpoints t (sym (rw on refl) ∙ did)
          | inr off ↦ subst (Keeps es) (some-injective (sym (rw off refl) ∙ did)) (Keeps-refl es t)
        ])
]

-- io_endpoint_halfclose
pub halfclose-Keeps :
    (p : Proxy) (i : ℕ) (p' : Proxy)
    → IsSound p.endpoints
    → halfclose p i ≡ some p'
    → Keeps p.endpoints p'.endpoints
unfolding halfclose
halfclose-Keeps p i p' s h =
    let es = update p.endpoints i (λ e. record e { shutdown_write = true }) in
    let k =
      update-Keeps p.endpoints i (λ e. record e { shutdown_write = true }) (λ e. refl) (λ e. refl)
        s in
    let t = Keeps-IsSound p.endpoints es s k in
    elim (Option-cases (pullup es i)) [
      | inl bad ↦ absurd (ground (arith, h, bad))
      | inr (r, pulled) ↦
          let l = pullup-Keeps es i r.0 r.1 t pulled in
          let u = Keeps-IsSound es r.1 t l in
          Keeps-trans p.endpoints es p'.endpoints k (
            Keeps-trans es r.1 p'.endpoints l (
              shutdown-Keeps (record p { endpoints = r.1 }) i
                (if is_none r.0 then shut_rdwr else shut_rd) p' u
                (sym (rw (halfclose, pulled) refl) ∙ h)))
    ]
