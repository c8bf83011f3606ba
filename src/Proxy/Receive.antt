-- ===== src/Proxy/Receive.antt =====
-- proxy/main.c, the handlers that read from a connection: proxy_recv_copy, proxy_recv_mux and
-- proxy_recv_demux. `none` stands for ni_fatal and for a failed assertion.
use testbus.Base.{
  ℕ, ◌+◌, ◌%◌, ◌^◌, List, [], ◌∷◌, ◌++◌, Option, none, some, Bool, true, ◌&&◌, ◌||◌, get_elem?,
  length, if◌then◌else◌, ◌==◌, ltb, is_none,
}
use testbus.Buffer.{Buffer, init, count, pull_head, push_tail, push_head, reserve_head}
use testbus.Proxy.Header.{
  Header, header_size, header_bytes, read_header, channel_open, channel_close, channel_data,
}
use testbus.Proxy.Socket.{Socket, got, eof, failed}
use testbus.Proxy.Demux.{
  zeros, recv_bufsiz, receive, End, packet, part, closed, broken, aborted, out_of_fuel,
}
use testbus.Proxy.Endpoint.{Mbuf, Side, Endpoint, update, endpoint_new, mbuf_wrap, queue_write}
use testbus.Proxy.Channel.{
  Proxy, other, transport, change, shutdown, halfclose, channel_by_id, shut_rd,
}

-- __proxy_command_new, with no payload: proxy_channel_open_new and proxy_channel_close_new.
unfoldable pub command_buffer : ℕ → ℕ → Buffer
unfolding push_tail
command_buffer cmd channel_id =
    (push_tail (init (zeros header_size))
      (header_bytes (record { cmd = cmd; channel = channel_id; count = 0 }))).1

unfoldable pub command_new : ℕ → ℕ → Mbuf
unfolding mbuf_wrap command_buffer
command_new cmd channel_id = mbuf_wrap (command_buffer cmd channel_id) none

unfoldable pub queue : Bool → Proxy → ℕ → Mbuf → Option Proxy
unfolding queue_write
queue connects p i m = elim (queue_write connects p.endpoints i m) [
  | none ↦ none
  | some es ↦ some (record p { endpoints = es })
]

-- __io_transport_connect, with the descriptors that the connector opens and connects, and what
-- __io_endpoint_new does to the transport; and the rest of CHANNEL_OPEN.
unfoldable pub open_channel : Option (ℕ × ℕ) → Proxy → Side → ℕ → ℕ → Option Proxy
unfolding change transport endpoint_new
open_channel none p side source channel_id = none
open_channel (some (rfd, wfd)) p side source channel_id =
    let ep = endpoint_new (transport p side).type side channel_id (some rfd) (some wfd) true in
    let ep' : Endpoint = record ep { sink = some source; rx_credit = 8192 } in
    let i = length p.endpoints in
    let p' = change p side λ t. record t {
      ep_list = t.ep_list ++ i ∷ [];
      next_channel_id =
          if ltb t.next_channel_id channel_id then (channel_id + 1) % 2 ^ 32 else t.next_channel_id;
    } in
    some (record p' { endpoints = p.endpoints ++ ep' ∷ [] })

-- What proxy_demux_packet does with a packet for the channel of `sink`; `bp` holds the payload.
unfoldable pub demux_to : Bool → Proxy → ℕ → ℕ → ℕ → Buffer → Option Proxy
unfolding halfclose queue mbuf_wrap
demux_to connects p source sink cmd bp =
    if cmd == channel_close
    then halfclose p sink
    else if cmd == channel_data
    then queue connects p sink (mbuf_wrap bp (some source))
    else some p

-- With the header, for the endpoints of one side.
unfoldable pub demux_header :
    Bool → Option (ℕ × ℕ) → Proxy → ℕ → Side → Header → Buffer → Option Proxy
unfolding open_channel channel_by_id demux_to transport
demux_header connects fds p source side h bp =
    if h.cmd == channel_open
    then open_channel fds p side source h.channel
    else elim (channel_by_id p.endpoints (transport p side).ep_list h.channel) [
      | none ↦ some p
      | some sink ↦ demux_to connects p source sink h.cmd bp
    ]

-- proxy_demux_packet
unfoldable pub demux_packet : Bool → Option (ℕ × ℕ) → Proxy → ℕ → Buffer → Option Proxy
unfolding pull_head read_header demux_header
demux_packet connects fds p source bp = elim (get_elem? p.endpoints source) [
  | none ↦ none
  | some ep ↦ elim (pull_head bp header_size).0 [
    | none ↦ none
    | some hdr ↦
        demux_header connects fds p source (other ep.transport) (read_header hdr)
          (pull_head bp header_size).1
  ]
]

-- proxy_recv_mux, for a packet that holds what read() returned.
unfoldable pub mux_packet : ℕ → ℕ → List ℕ → Buffer × ℕ
unfolding reserve_head push_tail push_head count
mux_packet rcount channel_id xs =
    let bp = (push_tail (reserve_head (init (zeros (rcount + header_size))) header_size).1 xs).1 in
    let n = count bp in
    (
      (push_head bp
          (header_bytes (record { cmd = channel_data; channel = channel_id; count = n }))).1,
      n,
    )

-- `connects`: whether a delayed connect of the sink succeeds. `fionread`: what fcntl() gives.
module _ (k : Socket) (connects : Bool) (fionread : Option ℕ) where
  -- proxy_recv_mux
  unfoldable pub recv_mux : Proxy → ℕ → k.State → Option Proxy × k.State
  unfolding recv_bufsiz mux_packet queue command_new shutdown
  recv_mux p i s = elim (get_elem? p.endpoints i) [
    | none ↦ (none, s)
    | some ep ↦
        let rcount = recv_bufsiz fionread ep.rx_credit in
        elim (if ep.rx_credit == 0 || ep.channel_id == 0 then none else ep.sink) [
          | none ↦ (none, s)
          | some sink ↦ elim (k.read s rcount).0 [
            | got xs ↦
                let (bp, n) = mux_packet rcount ep.channel_id xs in
                let m : Mbuf = record { source = some i; buffer = some bp; credit = n } in
                (queue connects p sink m, (k.read s rcount).1)
            | eof ↦ (
              elim (queue connects p sink (command_new channel_close ep.channel_id)) [
                | none ↦ none
                | some p' ↦ shutdown p' i shut_rd
              ],
              (k.read s rcount).1,
            )
            | failed ↦ (some p, (k.read s rcount).1)
          ]
        ]
  ]

  -- proxy_recv_copy
  unfoldable pub recv_copy : Proxy → ℕ → k.State → Option Proxy × k.State
  unfolding recv_bufsiz queue shutdown push_tail mbuf_wrap
  recv_copy p i s = elim (get_elem? p.endpoints i) [
    | none ↦ (none, s)
    | some ep ↦
        let rcount = recv_bufsiz fionread ep.rx_credit in
        elim (if ep.rx_credit == 0 then none else ep.sink) [
          | none ↦ (none, s)
          | some sink ↦ elim (k.read s rcount).0 [
            | got xs ↦ (
              queue connects p sink (mbuf_wrap (push_tail (init (zeros rcount)) xs).1 (some i)),
              (k.read s rcount).1,
            )
            | eof ↦
                let es = update p.endpoints sink (λ e. record e { shutdown_write = true }) in
                (shutdown (record p { endpoints = es }) i shut_rd, (k.read s rcount).1)
            | failed ↦ (some p, (k.read s rcount).1)
          ]
        ]
  ]

-- The loop over the other transport's endpoints when the connection is closed. An endpoint that dies
-- moves to the garbage list and has no successor then, which ends the loop.
unfoldable pub halfclose_each : Proxy → List ℕ → Option Proxy
unfolding halfclose
halfclose_each p [] = some p
halfclose_each p (i ∷ is) = elim (halfclose p i) [
  | none ↦ none
  | some p' ↦
      let rest = halfclose_each p' is in
      elim (get_elem? p'.endpoints i) [
        | none ↦ none
        | some e ↦ if is_none e.rfd && is_none e.wfd then some p' else rest
      ]
]

-- What proxy_recv_demux does once its loop has ended, `rbuf` and the packet given.
unfoldable pub demux_end : Bool → Option (ℕ × ℕ) → Proxy → ℕ → Side → End → Buffer → Option Proxy
unfolding demux_packet halfclose_each shutdown transport
demux_end connects fds p i side packet bp = demux_packet connects fds p i bp
demux_end connects fds p i side part bp = some p
demux_end connects fds p i side broken bp = some p
demux_end connects fds p i side aborted bp = none
demux_end connects fds p i side out_of_fuel bp = none
demux_end connects fds p i side closed bp =
    elim (halfclose_each p (transport p (other side)).ep_list) [
      | none ↦ none
      | some p' ↦ shutdown p' i shut_rd
    ]

-- proxy_recv_demux
unfoldable pub recv_demux :
    (k : Socket) → Bool → Option ℕ → Option (ℕ × ℕ) → Proxy → ℕ → k.State → Option Proxy × k.State
unfolding recv_bufsiz receive demux_end
recv_demux k connects fionread fds p i s = elim (get_elem? p.endpoints i) [
  | none ↦ (none, s)
  | some ep ↦
      if ep.rx_credit == 0
      then (none, s)
      else let (e, b, rbuf, s') = receive k ep.rbuf s (recv_bufsiz fionread ep.rx_credit) in
        let es = update p.endpoints i (λ e. record e { rbuf = rbuf }) in
        (demux_end connects fds (record p { endpoints = es }) i ep.transport e b, s')
]
