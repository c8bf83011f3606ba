-- ===== src/Proxy/Demuxing.antt =====
-- proxy_demux_packet and the end of proxy_recv_demux keep the receive credits.
use testbus.Base.{
  ℕ, zero, suc, ◌<◌, ◌≡◌, refl, List, [], ◌∷◌, Option, none, some, Bool, ◌&&◌, arith, get_elem?,
  length, ◌==◌, Bool-cases, Option-cases, some-injective, inl, inr, ap, sym, ◌∙◌, subst, is_none,
}
use testbus.Buffer.{Buffer, pull_head}
use testbus.Proxy.Header.{
  Header, read_header, channel_open, channel_close, channel_data, header_size,
}
use testbus.Proxy.Demux.{End, packet, part, closed, broken, aborted, out_of_fuel}
use testbus.Proxy.Endpoint.{Mbuf, Side, Endpoint, Endpoints, queue_write, mbuf_wrap, endpoint_new}
use testbus.Proxy.Taking.{IsSource}
use testbus.Proxy.Extends.{Extends, Keeps-Extends, Extends-refl, Extends-trans, append-Extends}
use testbus.Proxy.Sound.{IsSound, Keeps}
use testbus.Proxy.Handlers.{queue_write-Keeps, shutdown-Keeps, halfclose-Keeps}
use testbus.Proxy.Channel.{Proxy, other, transport, halfclose, channel_by_id, shut_rd}
use testbus.Proxy.Receive.{
  queue, open_channel, demux_to, demux_header, demux_packet, halfclose_each, demux_end,
}

pub unchanged :
    (p p' : Proxy) → IsSound p.endpoints → some p ≡ some p' → Extends p.endpoints p'.endpoints
unchanged p p' s h =
    subst (λ p'. Extends p.endpoints p'.endpoints) (some-injective h) (Extends-refl p.endpoints s)

pub queue-Keeps :
    (connects : Bool) (p : Proxy) (i : ℕ) (m : Mbuf) (bp : Buffer) (p' : Proxy)
    → IsSound p.endpoints
    → IsSource (length p.endpoints) m.source
    → m.buffer ≡ some bp
    → queue connects p i m ≡ some p'
    → Keeps p.endpoints p'.endpoints
unfolding queue
queue-Keeps connects p i m bp p' s src b h =
    elim (Option-cases (queue_write connects p.endpoints i m)) [
      | inl bad ↦ absurd (ground (arith, h, bad))
      | inr (es, done) ↦
          let same : record p { endpoints = es } ≡ p' =
            some-injective (sym (rw (queue, done) refl) ∙ h) in
          subst (Keeps p.endpoints) (ap (λ p. p.endpoints) same)
            (queue_write-Keeps connects p.endpoints i m bp es s src b done)
    ]

open_channel-Extends :
    (fds : Option (ℕ × ℕ)) (p : Proxy) (side : Side) (src channel : ℕ) (p' : Proxy)
    → IsSound p.endpoints
    → open_channel fds p side src channel ≡ some p'
    → Extends p.endpoints p'.endpoints
unfolding open_channel endpoint_new
open_channel-Extends none p side src channel p' s h = absurd (ground (arith, h))
open_channel-Extends (some (rfd, wfd)) p side src channel p' s h =
    subst (Extends p.endpoints) (ap (λ p. p.endpoints) (some-injective h))
      (append-Extends p.endpoints _ s refl (omega arith))

demux_to-Keeps :
    (connects : Bool) (p : Proxy) (src sink cmd : ℕ) (bp : Buffer) (p' : Proxy)
    → IsSound p.endpoints
    → src < length p.endpoints
    → demux_to connects p src sink cmd bp ≡ some p'
    → Extends p.endpoints p'.endpoints
unfolding demux_to mbuf_wrap
demux_to-Keeps connects p src sink cmd bp p' s lt h = elim (Bool-cases (cmd == channel_close)) [
  | inl close ↦
      Keeps-Extends _ _ s (halfclose-Keeps p sink p' s (sym (rw (demux_to, close) refl) ∙ h))
  | inr other_cmd ↦ elim (Bool-cases (cmd == channel_data)) [
    | inl data_packet ↦ Keeps-Extends _ _ s (
        queue-Keeps connects p sink (mbuf_wrap bp (some src)) bp p' s lt refl
          (sym (rw (demux_to, other_cmd, data_packet) refl) ∙ h))
    | inr bad ↦ unchanged p p' s (sym (rw (demux_to, other_cmd, bad) refl) ∙ h)
  ]
]

demux_header-Extends :
    (connects : Bool) (fds : Option (ℕ × ℕ)) (p : Proxy) (src : ℕ) (side : Side) (hdr : Header)
    (bp : Buffer) (p' : Proxy)
    → IsSound p.endpoints
    → src < length p.endpoints
    → demux_header connects fds p src side hdr bp ≡ some p'
    → Extends p.endpoints p'.endpoints
unfolding demux_header
demux_header-Extends connects fds p src side hdr bp p' s lt h =
    elim (Bool-cases (hdr.cmd == channel_open)) [
      | inl new ↦
          open_channel-Extends fds p side src hdr.channel p' s
            (sym (rw (demux_header, new) refl) ∙ h)
      | inr old ↦
          elim (Option-cases (channel_by_id p.endpoints (transport p side).ep_list hdr.channel)) [
            | inl gone ↦ unchanged p p' s (sym (rw (demux_header, old, gone) refl) ∙ h)
            | inr (sink, here) ↦
                demux_to-Keeps connects p src sink hdr.cmd bp p' s lt
                  (sym (rw (demux_header, old, here) refl) ∙ h)
          ]
    ]

pub get_lt : (es : Endpoints) (i : ℕ) (e : Endpoint) → get_elem? es i ≡ some e → i < length es
get_lt [] i e h = absurd (ground (arith, h))
get_lt (x ∷ es) zero e h = omega arith
get_lt (x ∷ es) (suc i) e h = omega (arith, get_lt es i e h)

-- proxy_demux_packet
pub demux_packet-Extends :
    (connects : Bool) (fds : Option (ℕ × ℕ)) (p : Proxy) (src : ℕ) (bp : Buffer) (p' : Proxy)
    → IsSound p.endpoints
    → demux_packet connects fds p src bp ≡ some p'
    → Extends p.endpoints p'.endpoints
unfolding demux_packet
demux_packet-Extends connects fds p src bp p' s h =
    elim (Option-cases (get_elem? p.endpoints src)) [
      | inl gone ↦ absurd (ground (arith, h, gone))
      | inr (ep, here) ↦ elim (Option-cases (pull_head bp header_size).0) [
        | inl short ↦ absurd (ground (arith, h, here, short))
        | inr (hdr, pulled) ↦
            demux_header-Extends connects fds p src (other ep.transport) (read_header hdr)
              (pull_head bp header_size).1 p' s (get_lt p.endpoints src ep here)
              (sym (rw (demux_packet, here, pulled) refl) ∙ h)
      ]
    ]

halfclose_each-Extends :
    (is : List ℕ) (p p' : Proxy)
    → IsSound p.endpoints
    → halfclose_each p is ≡ some p'
    → Extends p.endpoints p'.endpoints
unfolding halfclose_each
halfclose_each-Extends [] p p' s h = unchanged p p' s h
halfclose_each-Extends (i ∷ is) p p' s h = elim (Option-cases (halfclose p i)) [
  | inl bad ↦ absurd (ground (arith, h, bad))
  | inr (p1, done) ↦
      let k = Keeps-Extends _ _ s (halfclose-Keeps p i p1 s done) in
      elim (Option-cases (get_elem? p1.endpoints i)) [
        | inl gone ↦ absurd (ground (arith, h, done, gone))
        | inr (e, here) ↦ elim (Bool-cases (is_none e.rfd && is_none e.wfd)) [
          | inl dead ↦
              Extends-trans _ _ _ k
                (unchanged p1 p' k.sound (sym (rw (halfclose_each, done, here, dead) refl) ∙ h))
          | inr alive ↦ Extends-trans _ _ _ k (
              halfclose_each-Extends is p1 p' k.sound
                (sym (rw (halfclose_each, done, here, alive) refl) ∙ h))
        ]
      ]
]

pub demux_end-Extends :
    (connects : Bool) (fds : Option (ℕ × ℕ)) (p : Proxy) (i : ℕ) (side : Side) (e : End)
    (bp : Buffer) (p' : Proxy)
    → IsSound p.endpoints
    → demux_end connects fds p i side e bp ≡ some p'
    → Extends p.endpoints p'.endpoints
unfolding demux_end
demux_end-Extends connects fds p i side packet bp p' s h =
    demux_packet-Extends connects fds p i bp p' s h
demux_end-Extends connects fds p i side part bp p' s h = unchanged p p' s h
demux_end-Extends connects fds p i side broken bp p' s h = unchanged p p' s h
demux_end-Extends connects fds p i side aborted bp p' s h = absurd (ground (arith, h))
demux_end-Extends connects fds p i side out_of_fuel bp p' s h = absurd (ground (arith, h))
demux_end-Extends connects fds p i side closed bp p' s h =
    elim (Option-cases (halfclose_each p (transport p (other side)).ep_list)) [
      | inl bad ↦ absurd (ground (arith, h, bad))
      | inr (p1, done) ↦
          let k = halfclose_each-Extends (transport p (other side)).ep_list p p1 s done in
          Extends-trans _ _ _ k (
            Keeps-Extends _ _ k.sound
              (shutdown-Keeps p1 i shut_rd p' k.sound (sym (rw (demux_end, done) refl) ∙ h)))
    ]
