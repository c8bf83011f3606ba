-- ===== src/Proxy/Endpoint.antt =====
-- proxy/main.c, the connections of the proxy with their write queues and receive credits.
use testbus.Base.{
  ℕ, zero, suc, ◌+◌, ◌-◌, ◌%◌, ◌^◌, List, [], ◌∷◌, ◌++◌, Option, none, some, Bool, true, false,
  ◌||◌, get_elem?, if◌then◌else◌, ◌==◌, leb,
}
use testbus.Buffer.{Buffer, count, pull_head}

-- struct io_mbuf; `source` is the place of an endpoint in the list below.
pub record Mbuf : Type 0 where
  pub source : Option ℕ
  pub buffer : Option Buffer
  pub credit : ℕ

-- enum io_endpoint_type
pub data EndpointType : Type 0 where
  simplex : EndpointType
  multiplex : EndpointType

-- The two transports of the proxy.
pub data Side : Type 0 where
  upstream : Side
  downstream : Side

-- struct io_endpoint. A file descriptor of -1 is `none`.
pub record Endpoint : Type 0 where
  pub type : EndpointType
  pub transport : Side
  pub channel_id : ℕ
  pub sink : Option ℕ
  pub rfd : Option ℕ
  pub wfd : Option ℕ
  pub rx_credit : ℕ
  pub rbuf : Option Buffer
  pub wbuf : Option Buffer
  pub wqueue : List Mbuf
  pub shutdown_write : Bool
  pub connected : Bool

-- The endpoints in memory, each at the place that is its address.
abbrev pub Endpoints : Type 0
Endpoints = List Endpoint

abbrev pub update : Endpoints → ℕ → (Endpoint → Endpoint) → Endpoints
update [] i f = []
update (e ∷ es) zero f = f e ∷ es
update (e ∷ es) (suc i) f = e ∷ update es i f

-- DEFAULT_CREDIT_SIMPLEX and DEFAULT_CREDIT_MULTIPLEX
abbrev pub default_credit : EndpointType → ℕ
default_credit simplex = 8192
default_credit multiplex = 131072

-- __io_endpoint_new
unfoldable pub endpoint_new : EndpointType → Side → ℕ → Option ℕ → Option ℕ → Bool → Endpoint
endpoint_new type side channel_id rfd wfd connected = record {
  type = type;
  transport = side;
  channel_id = channel_id;
  sink = none;
  rfd = rfd;
  wfd = wfd;
  rx_credit = default_credit type;
  rbuf = none;
  wbuf = none;
  wqueue = [];
  shutdown_write = false;
  connected = connected;
}

-- io_mbuf_wrap
unfoldable pub mbuf_wrap : Buffer → Option ℕ → Mbuf
mbuf_wrap bp ep = record { source = ep; buffer = some bp; credit = count bp }

unfoldable pub give_back : Endpoints → Option ℕ → ℕ → Endpoints
give_back es none credit = es
give_back es (some k) credit =
    update es k (λ e. record e { rx_credit = (e.rx_credit + credit) % 2 ^ 32 })

-- io_mbuf_take_buffer
unfoldable pub mbuf_take_buffer : Endpoints → Mbuf → Option Buffer × Endpoints
unfolding give_back
mbuf_take_buffer es m = elim m.buffer [
  | none ↦ (none, es)
  | some bp ↦ (some bp, give_back es m.source m.credit)
]

-- The source's part of io_endpoint_queue_write; `none` where the assertion fails.
unfoldable pub charge : Endpoints → Option ℕ → ℕ → Option Endpoints
charge es none credit = some es
charge es (some k) credit = elim (get_elem? es k) [
  | none ↦ none
  | some source ↦
      if leb credit source.rx_credit
      then some (update es k (λ e. record e { rx_credit = e.rx_credit - credit }))
      else none
]

abbrev pub enqueue : Mbuf → Endpoint → Endpoint
enqueue m e = record e { wqueue = e.wqueue ++ m ∷ []; connected = true }

-- io_endpoint_queue_write: `connects` says whether a delayed connect of the sink succeeds; `none`
-- stands for ni_fatal and for a failed assertion.
unfoldable pub queue_write : Bool → Endpoints → ℕ → Mbuf → Option Endpoints
unfolding charge
queue_write connects es i m = elim (get_elem? es i) [
  | none ↦ none
  | some sink ↦
      if sink.connected || connects
      then elim (charge es m.source m.credit) [
        | none ↦ none
        | some es' ↦ some (update es' i (enqueue m))
      ]
      else none
]

-- io_endpoint_pullup, without a buffer in `wbuf`: the first one of the queue.
unfoldable pub pull_next : Endpoints → ℕ → List Mbuf → Option Buffer × Endpoints
unfolding mbuf_take_buffer
pull_next es i [] = (none, es)
pull_next es i (m ∷ ms) =
    let (bp, es') = mbuf_take_buffer es m in
    (bp, update es' i (λ e. record e { wbuf = bp; wqueue = ms }))

-- io_endpoint_pullup: the buffer that is to be written next. The assertion is that `wbuf` is not empty.
unfoldable pub pullup : Endpoints → ℕ → Option (Option Buffer × Endpoints)
unfolding pull_next
pullup es i = elim (get_elem? es i) [
  | none ↦ none
  | some ep ↦ elim ep.wbuf [
    | none ↦ some (pull_next es i ep.wqueue)
    | some bp ↦ if count bp == 0 then none else some (some bp, es)
  ]
]

-- The loop of io_endpoint_write_queue_discard.
unfoldable pub discard_queue : Endpoints → List Mbuf → Endpoints
unfolding mbuf_take_buffer
discard_queue es [] = es
discard_queue es (m ∷ ms) = discard_queue (mbuf_take_buffer es m).1 ms

-- io_endpoint_write_queue_discard
unfoldable pub write_queue_discard : Endpoints → ℕ → Endpoints
unfolding discard_queue
write_queue_discard es i = elim (get_elem? es i) [
  | none ↦ es
  | some ep ↦ update (discard_queue es ep.wqueue) i (λ e. record e { wbuf = none; wqueue = [] })
]

-- io_endpoint_doio, when write() has taken `n` bytes, at least one, of the buffer in `wbuf`.
unfoldable pub written : ℕ → Endpoint → Endpoint
written n e = elim e.wbuf [
  | none ↦ e
  | some bp ↦
      let bp' = (pull_head bp n).1 in record e { wbuf = if count bp' == 0 then none else some bp' }
]
