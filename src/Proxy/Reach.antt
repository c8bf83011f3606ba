-- ===== src/Proxy/Reach.antt =====
-- All that the proxy's event loop does with its endpoints, step by step, and the receive credits.
use testbus.Base.{
  ℕ, ◌<◌, ◌≡◌, refl, Option, none, some, Bool, true, ◌||◌, arith, get_elem?, length, if◌then◌else◌,
  ◌==◌, Bool-cases, Option-cases, inl, inr, sym, ◌∙◌, subst,
}
use testbus.Buffer.{Buffer, init, push_tail}
use testbus.Proxy.Header.{channel_close}
use testbus.Proxy.Socket.{Socket, ReadResult, got, eof, failed}
use testbus.Proxy.Demux.{recv_bufsiz, receive, zeros}
use testbus.Proxy.Endpoint.{Endpoint, Endpoints, update, pullup, mbuf_wrap, written}
use testbus.Proxy.Credit.{total}
use testbus.Proxy.Extends.{Extends, Keeps-Extends, Extends-refl, Extends-trans}
use testbus.Proxy.Demuxing.{unchanged, queue-Keeps, get_lt, demux_end-Extends}
use testbus.Proxy.Sound.{IsSound, update-Keeps, pullup-Keeps}
use testbus.Proxy.Handlers.{shutdown-Keeps}
use testbus.Proxy.Channel.{Proxy, shutdown, How, shut_rd}
use testbus.Proxy.Receive.{
  command_new, command_buffer, queue, mux_packet, recv_mux, recv_copy, recv_demux,
}

-- proxy_recv_mux
recv_mux-Extends :
    (k : Socket) (connects : Bool) (fionread : Option ℕ) (p : Proxy) (i : ℕ) (t : k.State)
    (p' : Proxy)
    → IsSound p.endpoints
    → (recv_mux k connects fionread p i t).0 ≡ some p'
    → Extends p.endpoints p'.endpoints
unfolding recv_mux command_new mbuf_wrap
recv_mux-Extends k connects fionread p i t p' s h = elim (Option-cases (get_elem? p.endpoints i)) [
  | inl gone ↦ absurd (ground (arith, h, gone))
  | inr (ep, here) ↦
      let n = recv_bufsiz fionread ep.rx_credit in
      elim (Option-cases (if ep.rx_credit == 0 || ep.channel_id == 0 then none else ep.sink)) [
        | inl bad ↦ absurd (ground (arith, h, here, bad))
        | inr (sink, ok) ↦ go ep here sink ok (k.read t n).0 refl
      ]
]
  where
    go :
        (ep : Endpoint)
        → get_elem? p.endpoints i ≡ some ep
        → (sink : ℕ)
        → (if ep.rx_credit == 0 || ep.channel_id == 0 then none else ep.sink) ≡ some sink
        → (r : ReadResult) → (k.read t (recv_bufsiz fionread ep.rx_credit)).0 ≡ r
        → Extends p.endpoints p'.endpoints
    go ep here sink ok (got xs) e =
        let (bp, n) = mux_packet (recv_bufsiz fionread ep.rx_credit) ep.channel_id xs in
        Keeps-Extends _ _ s (
          queue-Keeps connects p sink (record { source = some i; buffer = some bp; credit = n }) bp
            p' s (get_lt p.endpoints i ep here) refl (sym (rw (recv_mux, here, ok, e) refl) ∙ h))
    go ep here sink ok eof e =
        let m = command_new channel_close ep.channel_id in
        elim (Option-cases (queue connects p sink m)) [
          | inl bad ↦ absurd (ground (arith, h, here, ok, e, bad))
          | inr (p1, done) ↦
              let k1 = Keeps-Extends _ _ s (
                queue-Keeps connects p sink m (command_buffer channel_close ep.channel_id) p1 s tt
                  refl done) in
              Extends-trans _ _ _ k1 (
                Keeps-Extends _ _ k1.sound (
                  shutdown-Keeps p1 i shut_rd p' k1.sound
                    (sym (rw (recv_mux, here, ok, e, done) refl) ∙ h)))
        ]
    go ep here sink ok failed e = unchanged p p' s (sym (rw (recv_mux, here, ok, e) refl) ∙ h)

-- proxy_recv_copy
recv_copy-Extends :
    (k : Socket) (connects : Bool) (fionread : Option ℕ) (p : Proxy) (i : ℕ) (t : k.State)
    (p' : Proxy)
    → IsSound p.endpoints
    → (recv_copy k connects fionread p i t).0 ≡ some p'
    → Extends p.endpoints p'.endpoints
unfolding recv_copy mbuf_wrap
recv_copy-Extends k connects fionread p i t p' s h = elim (Option-cases (get_elem? p.endpoints i)) [
  | inl gone ↦ absurd (ground (arith, h, gone))
  | inr (ep, here) ↦ elim (Option-cases (if ep.rx_credit == 0 then none else ep.sink)) [
    | inl bad ↦ absurd (ground (arith, h, here, bad))
    | inr (sink, ok) ↦ go ep here sink ok (k.read t (recv_bufsiz fionread ep.rx_credit)).0 refl
  ]
]
  where
    go :
        (ep : Endpoint)
        → get_elem? p.endpoints i ≡ some ep
        → (sink : ℕ) → (if ep.rx_credit == 0 then none else ep.sink) ≡ some sink
        → (r : ReadResult) → (k.read t (recv_bufsiz fionread ep.rx_credit)).0 ≡ r
        → Extends p.endpoints p'.endpoints
    go ep here sink ok (got xs) e =
        let bp = (push_tail (init (zeros (recv_bufsiz fionread ep.rx_credit))) xs).1 in
        Keeps-Extends _ _ s (
          queue-Keeps connects p sink (mbuf_wrap bp (some i)) bp p' s (get_lt p.endpoints i ep here)
            refl (sym (rw (recv_copy, here, ok, e) refl) ∙ h))
    go ep here sink ok eof e =
        let f : Endpoint → Endpoint = λ e. record e { shutdown_write = true } in
        let k1 = Keeps-Extends _ _ s (update-Keeps p.endpoints sink f (λ e. refl) (λ e. refl) s) in
        Extends-trans _ _ _ k1 (
          Keeps-Extends _ _ k1.sound (
            shutdown-Keeps (record p { endpoints = update p.endpoints sink f }) i shut_rd p'
              k1.sound (sym (rw (recv_copy, here, ok, e) refl) ∙ h)))
    go ep here sink ok failed e = unchanged p p' s (sym (rw (recv_copy, here, ok, e) refl) ∙ h)

-- proxy_recv_demux
recv_demux-Extends :
    (k : Socket) (connects : Bool) (fionread : Option ℕ) (fds : Option (ℕ × ℕ)) (p : Proxy) (i : ℕ)
    (t : k.State) (p' : Proxy)
    → IsSound p.endpoints
    → (recv_demux k connects fionread fds p i t).0 ≡ some p'
    → Extends p.endpoints p'.endpoints
unfolding recv_demux
recv_demux-Extends k connects fionread fds p i t p' s h =
    elim (Option-cases (get_elem? p.endpoints i)) [
      | inl gone ↦ absurd (ground (arith, h, gone))
      | inr (ep, here) ↦ elim (Bool-cases (ep.rx_credit == 0)) [
        | inl broke ↦ absurd (ground (arith, h, here, broke))
        | inr ok ↦
            let (e, b, rbuf, t') = receive k ep.rbuf t (recv_bufsiz fionread ep.rx_credit) in
            let f : Endpoint → Endpoint = λ e. record e { rbuf = rbuf } in
            let k1 = Keeps-Extends _ _ s (update-Keeps p.endpoints i f (λ e. refl) (λ e. refl) s) in
            Extends-trans _ _ _ k1 (
              demux_end-Extends connects fds (record p { endpoints = update p.endpoints i f }) i
                ep.transport e b p' k1.sound (sym (rw (recv_demux, here, ok) refl) ∙ h))
      ]
    ]

written-same :
    (n : ℕ) (e : Endpoint)
    → ((written n e).rx_credit ≡ e.rx_credit) × ((written n e).wqueue ≡ e.wqueue)
unfolding written
written-same n e = elim (Option-cases e.wbuf) [
  | inl nothing ↦ rw (written, nothing) (refl, refl)
  | inr (bp, full) ↦ rw (written, full) (refl, refl)
]

-- What the event loop does: the three handlers, for any result of the system calls; io_endpoint_pullup
-- before poll(); a write() of `n` bytes; io_endpoint_shutdown, for an error or a hangup.
pub data Step (k : Socket) (p p' : Proxy) : Type 0 where
  muxes :
      (connects : Bool) (fionread : Option ℕ) (i : ℕ) (t : k.State)
      → (recv_mux k connects fionread p i t).0 ≡ some p'
      → Step k p p'
  copies :
      (connects : Bool) (fionread : Option ℕ) (i : ℕ) (t : k.State)
      → (recv_copy k connects fionread p i t).0 ≡ some p'
      → Step k p p'
  demuxes :
      (connects : Bool) (fionread : Option ℕ) (fds : Option (ℕ × ℕ)) (i : ℕ) (t : k.State)
      → (recv_demux k connects fionread fds p i t).0 ≡ some p'
      → Step k p p'
  prepares :
      (i : ℕ) (o : Option Buffer) (es : Endpoints)
      → pullup p.endpoints i ≡ some (o, es)
      → p' ≡ record p { endpoints = es }
      → Step k p p'
  sends : (i n : ℕ) → p' ≡ record p { endpoints = update p.endpoints i (written n) } → Step k p p'
  shuts : (i : ℕ) (how : How) → shutdown p i how ≡ some p' → Step k p p'

pub data Reach (k : Socket) (p : Proxy) : Proxy → Type 0 where
  here : Reach k p p
  next : {q r : Proxy} → Reach k p q → Step k q r → Reach k p r

Step-Extends :
    (k : Socket) (p p' : Proxy)
    → IsSound p.endpoints
    → Step k p p'
    → Extends p.endpoints p'.endpoints
Step-Extends k p p' s (muxes c f i t h) = recv_mux-Extends k c f p i t p' s h
Step-Extends k p p' s (copies c f i t h) = recv_copy-Extends k c f p i t p' s h
Step-Extends k p p' s (demuxes c f fds i t h) = recv_demux-Extends k c f fds p i t p' s h
Step-Extends k p p' s (prepares i o es h e) =
    subst (λ p'. Extends p.endpoints p'.endpoints) (sym e)
      (Keeps-Extends _ _ s (pullup-Keeps p.endpoints i o es s h))
Step-Extends k p p' s (sends i n e) =
    subst (λ p'. Extends p.endpoints p'.endpoints) (sym e)
      (Keeps-Extends _ _ s (
        update-Keeps p.endpoints i (written n) (λ e. (written-same n e).0)
          (λ e. (written-same n e).1) s))
Step-Extends k p p' s (shuts i how h) = Keeps-Extends _ _ s (shutdown-Keeps p i how p' s h)

-- Whatever the proxy's handlers do, in any order, and whatever the system calls return, the receive
-- credit of an endpoint together with its bytes in the queues stays as it is, provided that the sources
-- of what is queued are endpoints in memory and that an unsigned int holds these sums; and that stays
-- so.
pub Reach-Extends :
    (k : Socket) (p p' : Proxy)
    → IsSound p.endpoints
    → Reach k p p'
    → IsSound p'.endpoints
      × ((j : ℕ) → j < length p.endpoints → total j p'.endpoints ≡ total j p.endpoints)
Reach-Extends k p p' s r = let e = all p' r in (e.sound, e.same)
  where
    all : (p' : Proxy) → Reach k p p' → Extends p.endpoints p'.endpoints
    all _ here = Extends-refl p.endpoints s
    all p' (next {q} r st) =
        let e = all q r in Extends-trans _ _ _ e (Step-Extends k q p' e.sound st)
