-- ===== src/Proxy/Channel.antt =====
-- proxy/main.c, the channels: shutting down of connections, and the handlers that read from them.
use testbus.Base.{
  ℕ, List, [], ◌∷◌, ◌++◌, Option, none, some, Bool, true, false, not, ◌&&◌, get_elem?,
  if◌then◌else◌, ◌==◌, is_none,
}
use testbus.Proxy.Endpoint.{
  EndpointType, Side, upstream, downstream, Endpoint, Endpoints, update, pullup,
  write_queue_discard,
}

-- struct io_transport; endpoints are given by their places.
pub record Transport : Type 0 where
  pub type : EndpointType
  pub multiplexed : Option ℕ
  pub ep_list : List ℕ
  pub garbage_list : List ℕ
  pub next_channel_id : ℕ

-- struct proxy
pub record Proxy : Type 0 where
  pub up : Transport
  pub down : Transport
  pub endpoints : Endpoints

abbrev pub other : Side → Side
other upstream = downstream
other downstream = upstream

unfoldable pub transport : Proxy → Side → Transport
transport p upstream = p.up
transport p downstream = p.down

unfoldable pub change : Proxy → Side → (Transport → Transport) → Proxy
change p upstream f = record p { up = f p.up }
change p downstream f = record p { down = f p.down }

-- What unlinks a member of a list.
abbrev pub without : ℕ → List ℕ → List ℕ
without i [] = []
without i (j ∷ js) = if i == j then js else j ∷ without i js

abbrev same_place : Option ℕ → ℕ → Bool
same_place none i = false
same_place (some j) i = j == i

-- io_endpoint_unlink. A member of the garbage list is unlinked from that.
unfoldable pub unlink : ℕ → Transport → Transport
unlink i t =
    if same_place t.multiplexed i
    then record t { multiplexed = none }
    else record t { ep_list = without i t.ep_list; garbage_list = without i t.garbage_list }

-- io_endpoint_shutdown, for SHUT_RD, SHUT_WR and SHUT_RDWR.
pub data How : Type 0 where
  shut_rd : How
  shut_wr : How
  shut_rdwr : How

abbrev pub reads : How → Bool
reads shut_wr = false
reads _ = true

abbrev pub writes : How → Bool
writes shut_rd = false
writes _ = true

-- The write side: pending writes are discarded, `wbuf` and the queue alike.
unfoldable pub shutdown_writes : Endpoints → ℕ → Option Endpoints
unfolding pullup write_queue_discard
shutdown_writes es i = elim (pullup es i) [
  | none ↦ none
  | some r ↦ some (
      update (if is_none r.0 then r.1 else write_queue_discard r.1 i) i
        (λ e. record e { wfd = none }))
]

abbrev pub link_garbage : ℕ → Transport → Transport
link_garbage i t = let t' = unlink i t in record t' { garbage_list = t'.garbage_list ++ i ∷ [] }

-- A socket that is dead moves to the garbage list.
unfoldable pub bury : Proxy → ℕ → Endpoint → Proxy
unfolding unlink change
bury p i e = if is_none e.rfd && is_none e.wfd then change p e.transport (link_garbage i) else p

-- The read side.
unfoldable pub shutdown_reads : Endpoints → ℕ → Endpoint → How → Endpoints
shutdown_reads es i e how =
    if not (is_none e.rfd) && reads how then update es i (λ e. record e { rfd = none }) else es

unfoldable pub finish_shutdown : Proxy → ℕ → Option Endpoints → Option Proxy
unfolding bury
finish_shutdown p i none = none
finish_shutdown p i (some es) = elim (get_elem? es i) [
  | none ↦ none
  | some e ↦ some (bury (record p { endpoints = es }) i e)
]

unfoldable pub shutdown : Proxy → ℕ → How → Option Proxy
unfolding shutdown_reads shutdown_writes finish_shutdown
shutdown p i how = elim (get_elem? p.endpoints i) [
  | none ↦ none
  | some e ↦
      let es = shutdown_reads p.endpoints i e how in
      finish_shutdown p i
        (if not (is_none e.wfd) && writes how then shutdown_writes es i else some es)
]

-- io_endpoint_halfclose
unfoldable pub halfclose : Proxy → ℕ → Option Proxy
unfolding shutdown pullup
halfclose p i =
    let es = update p.endpoints i (λ e. record e { shutdown_write = true }) in
    elim (pullup es i) [
      | none ↦ none
      | some r ↦
          shutdown (record p { endpoints = r.1 }) i (if is_none r.0 then shut_rdwr else shut_rd)
    ]

-- __proxy_channel_by_id
unfoldable pub channel_by_id : Endpoints → List ℕ → ℕ → Option ℕ
channel_by_id es [] channel_id = none
channel_by_id es (i ∷ is) channel_id =
    let rest = channel_by_id es is channel_id in
    elim (get_elem? es i) [
      | none ↦ rest
      | some e ↦ if e.channel_id == channel_id then some i else rest
    ]
