-- ===== src/Proxy/Deliver.antt =====
-- What proxy_demux_packet does with the packets of the other side's proxy_recv_mux.
use testbus.Base.{
  ℕ, ◌+◌, ◌^◌, ◌≤◌, ◌<◌, ◌≡◌, refl, List, [], ◌++◌, Option, none, some, Bool, false, arith,
  append-nil, length, drop, leb, ap, sym, ◌∙◌, get_elem?, ◌||◌, Option-cases, Bool-cases, inl, inr,
}
use testbus.Buffer.{Buffer, pull_head, count}
use testbus.Buffer.Bytes.{IsValid, contents}
use testbus.Proxy.Header.{header_size, header_bytes, read_header, read-header_bytes}
use testbus.Proxy.Socket.{Socket}
use testbus.Proxy.Endpoint.{Endpoint, mbuf_wrap, charge, queue_write}
use testbus.Proxy.Channel.{Proxy, transport, other, channel_by_id}
use testbus.Proxy.Receive.{mux_packet, queue, demux_to, demux_header, demux_packet}
use testbus.Proxy.Mux.{data_header, mux_packet-contents, pull-header, count-contents}

-- A data packet for a channel that exists goes to the channel's endpoint, without its header.
demux-data :
    (connects : Bool) (fds : Option (ℕ × ℕ)) (p : Proxy) (source sink channel : ℕ) (ep : Endpoint)
    (b : Buffer) (xs : List ℕ)
    → IsValid b
    → channel < 2 ^ 32
    → length xs < 2 ^ 32
    → contents b ≡ header_bytes (data_header channel (length xs)) ++ xs
    → get_elem? p.endpoints source ≡ some ep
    → channel_by_id p.endpoints (transport p (other ep.transport)).ep_list channel ≡ some sink
    → (b' : Buffer) × (contents b' ≡ xs)
      × IsValid b'
      × (demux_packet connects fds p source b ≡ queue connects p sink (mbuf_wrap b' (some source)))
unfolding demux_packet demux_header demux_to
demux-data connects fds p source sink channel ep b xs v c n e here there =
    let (got, rest, v') = pull-header b (data_header channel (length xs)) xs v e in
    let same : read_header (header_bytes (data_header channel (length xs)))
        ≡ data_header channel (length xs) =
      ap read_header (sym (append-nil _))
      ∙ read-header_bytes (data_header channel (length xs)) [] (omega arith, c, n) in
    let b' = (pull_head b header_size).1 in
    let to : demux_header connects fds p source (other ep.transport)
          (data_header channel (length xs)) b'
        ≡ queue connects p sink (mbuf_wrap b' (some source)) =
      rw (demux_header, there) refl in
    (
      b',
      rest,
      v',
      rw (demux_packet, here, got)
          (ap (λ h. demux_header connects fds p source (other ep.transport) h b') same ∙ to),
    )

-- What proxy_recv_mux sends of a channel's bytes reaches the channel on the other side: proxy_demux_packet
-- queues the bytes to the endpoint that has the channel's number there, when the packet arrives whole at
-- an endpoint that exists. Channel number and `rcount` are below 2 ^ 32.
pub demux-mux :
    (connects : Bool) (fds : Option (ℕ × ℕ)) (p : Proxy) (source sink : ℕ) (ep : Endpoint)
    (rcount channel : ℕ) (xs : List ℕ) (b : Buffer)
    → channel < 2 ^ 32
    → rcount < 2 ^ 32
    → length xs ≤ rcount
    → IsValid b
    → contents b ≡ contents (mux_packet rcount channel xs).0
    → get_elem? p.endpoints source ≡ some ep
    → channel_by_id p.endpoints (transport p (other ep.transport)).ep_list channel ≡ some sink
    → (b' : Buffer) × (contents b' ≡ xs)
      × IsValid b'
      × (demux_packet connects fds p source b ≡ queue connects p sink (mbuf_wrap b' (some source)))
demux-mux connects fds p source sink ep rcount channel xs b c r le v e here there =
    let (sent, v', n) = mux_packet-contents rcount channel xs r le in
    demux-data connects fds p source sink channel ep b xs v c (omega (arith, r, le)) (e ∙ sent) here
      there

-- What a client wrote to its channel, read by proxy_recv_mux in one call for `rcount` bytes.
pub record Message : Type 0 where
  pub rcount : ℕ
  pub channel : ℕ
  pub payload : List ℕ

abbrev pub IsMessage : Message → Type 0
IsMessage m =
    (m.channel < 2 ^ 32) × (m.rcount + header_size < 2 ^ 32) × (length m.payload ≤ m.rcount)

abbrev pub packet_of : Message → List ℕ
packet_of m = contents (mux_packet m.rcount m.channel m.payload).0

abbrev pub sent : Message → ℕ × List ℕ
sent m = (m.channel, m.payload)

-- A packet's channel and its bytes.
abbrev pub opened : List ℕ → ℕ × List ℕ
opened bs = ((read_header bs).channel, drop header_size bs)

queue-overdraft :
    (connects : Bool) (p : Proxy) (source sink : ℕ) (ep : Endpoint) (b : Buffer)
    → get_elem? p.endpoints source ≡ some ep
    → ep.rx_credit < count b
    → queue connects p sink (mbuf_wrap b (some source)) ≡ none
unfolding queue queue_write mbuf_wrap charge
queue-overdraft connects p source sink ep b here short =
    let gt : leb (count b) ep.rx_credit ≡ false = ground (arith, short) in
    elim (Option-cases (get_elem? p.endpoints sink)) [
      | inl gone ↦ rw (queue, queue_write, gone) refl
      | inr (e, there) ↦ elim (Bool-cases (e.connected || connects)) [
        | inl ok ↦ rw (queue, queue_write, there, ok, charge, here, gt) refl
        | inr bad ↦ rw (queue, queue_write, there, bad) refl
      ]
    ]

-- A payload that is larger than what is left of the source's credit fails the assertion of
-- io_endpoint_queue_write, and the proxy ends.
pub demux-overdraft :
    (connects : Bool) (fds : Option (ℕ × ℕ)) (p : Proxy) (source sink channel : ℕ) (ep : Endpoint)
    (b : Buffer) (xs : List ℕ)
    → IsValid b
    → channel < 2 ^ 32
    → length xs < 2 ^ 32
    → contents b ≡ header_bytes (data_header channel (length xs)) ++ xs
    → get_elem? p.endpoints source ≡ some ep
    → channel_by_id p.endpoints (transport p (other ep.transport)).ep_list channel ≡ some sink
    → ep.rx_credit < length xs
    → demux_packet connects fds p source b ≡ none
demux-overdraft connects fds p source sink channel ep b xs v c n e here there short =
    let (b', rest, v', to) =
      demux-data connects fds p source sink channel ep b xs v c n e here there in
    let credit : count b' ≡ length xs =
      count-contents b' v' (omega (arith, ap length rest, n)) ∙ ap length rest in
    to ∙ queue-overdraft connects p source sink ep b' here (omega (arith, credit, short))
