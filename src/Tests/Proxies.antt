-- ===== src/Tests/Proxies.antt =====
-- proxy/main.c at small inputs.
use testbus.Base.{
  ℕ, zero, suc, ◌≤◌, ◌<◌, ◌^◌, ◌≡◌, refl, List, [], ◌∷◌, ◌++◌, map, none, some, true, false, arith,
  min, length, length-take, take, drop, take-append-drop, All, ap, sym, ◌∙◌, inl,
}
use testbus.Buffer.{
  Buffer, init, push_tail, push_head, reserve_head, blit, count, tailroom, ensure_tailroom,
}
use testbus.Buffer.Bytes.{IsValid, contents}
use testbus.Proxy.Header.{header_bytes, read_header, packet_size, ntohl, htonl}
use testbus.Proxy.Socket.{Socket, IsStream, ReadResult, got, eof, failed}
use testbus.Proxy.Demux.{zeros, recv_bufsiz, loop, body, after, next, receive, keep, receive_buffer}
use testbus.Proxy.Framing.{Whole, IsReceiving}
use testbus.Proxy.Packets.{Framed, loop-Framed}
use testbus.Proxy.Stream.{flatten, held, IsHeld, delivered, run, run-flatten}
use testbus.Proxy.Endpoint.{
  simplex, multiplex, upstream, downstream, Endpoint, mbuf_wrap, queue_write, charge,
}
use testbus.Proxy.Credit.{total}
use testbus.Proxy.Sound.{IsSound}
use testbus.Proxy.Channel.{Proxy, other, transport, channel_by_id}
use testbus.Proxy.Receive.{mux_packet, queue, demux_packet, recv_mux}
use testbus.Proxy.Mux.{data_header, mux_packet-contents}
use testbus.Proxy.Deliver.{Message, packet_of, opened, demux-mux, demux-overdraft}
use testbus.Proxy.Reach.{Reach, muxes, here, Reach-Extends}
use testbus.Proxy.Poll.{Writes, poll, pending, poll_two, same_fd, poll-Writes}

-- A stream that comes in pieces of up to three bytes.
abbrev read_three : List ℕ → ℕ → ReadResult × List ℕ
read_three [] n = (eof, [])
read_three (x ∷ xs) zero = (eof, x ∷ xs)
read_three (x ∷ xs) (suc n) = (got (x ∷ take (min n 2) xs), drop (min n 2) xs)

abbrev three : Socket
three = record { State = List ℕ; read = read_three }

got_of : ReadResult → List ℕ
got_of (got xs) = xs
got_of eof = []
got_of failed = []

read_three-got :
    (s : List ℕ) (n : ℕ) (xs : List ℕ)
    → (read_three s n).0 ≡ got xs
    → (s ≡ xs ++ (read_three s n).1) × (0 < length xs) × (length xs ≤ n)
unfolding got_of
read_three-got [] n xs h = absurd (ground (arith, h))
read_three-got (x ∷ s) zero xs h = absurd (ground (arith, h))
read_three-got (x ∷ s) (suc n) xs h =
    let same : x ∷ take (min n 2) s ≡ xs = ap got_of h in
    (
      ap (◌∷◌ x) (sym (take-append-drop (min n 2) s)) ∙ ap (λ ys. ys ++ drop (min n 2) s) same,
      omega (arith, ap length same),
      omega (arith, ap length same, length-take (min n 2) s),
    )

read_three-eof : (s : List ℕ) (n : ℕ) → (read_three s n).0 ≡ eof → (read_three s n).1 ≡ s
read_three-eof [] n h = refl
read_three-eof (x ∷ s) zero h = refl
read_three-eof (x ∷ s) (suc n) h = absurd (ground (arith, h))

read_three-failed : (s : List ℕ) (n : ℕ) → (read_three s n).0 ≡ failed → (read_three s n).1 ≡ s
read_three-failed [] n h = refl
read_three-failed (x ∷ s) zero h = refl
read_three-failed (x ∷ s) (suc n) h = absurd (ground (arith, h))

abbrev three-IsStream : IsStream three
three-IsStream = record {
  stream = λ s. s;
  read_got = read_three-got;
  read_eof = read_three-eof;
  read_failed = read_three-failed;
}

abbrev messages : List Message
messages =
    record { rcount = 4; channel = 1; payload = 7 ∷ 8 ∷ [] }
    ∷ record { rcount = 3; channel = 2; payload = 9 ∷ [] }
    ∷ []

abbrev wire : List ℕ
wire = flatten (map packet_of messages)

run-flatten_example :
    let (ps, rbuf', s') = run three (14 ∷ []) none wire in
    IsHeld rbuf' × All Whole ps × (wire ≡ flatten ps ++ (held rbuf' ++ s'))
run-flatten_example = run-flatten three three-IsStream (14 ∷ []) none wire tt (omega arith, tt)

-- The first call reads the first packet, byte 14 being its last, and keeps it; the next one delivers it.
run-wire : (run three (14 ∷ []) none wire).0 ≡ []
unfolding run receive delivered keep loop body after next receive_buffer mux_packet push_tail
    push_head reserve_head blit count tailroom ensure_tailroom packet_size read_header ntohl
    header_bytes htonl
run-wire = refl

run-wire' :
    map opened (run three (14 ∷ 1 ∷ 4096 ∷ []) none wire).0 ≡ (1, 7 ∷ 8 ∷ []) ∷ (2, 9 ∷ []) ∷ []
unfolding run receive delivered keep loop body after next receive_buffer mux_packet push_tail
    push_head reserve_head blit count tailroom ensure_tailroom packet_size read_header ntohl
    header_bytes htonl
run-wire' = refl

-- A multiplexed connection upstream, at place 0, and a client with channel 1 downstream, at place 1.
abbrev mux_end : Endpoint
mux_end = record {
  type = multiplex;
  transport = upstream;
  channel_id = 0;
  sink = none;
  rfd = some 5;
  wfd = some 5;
  rx_credit = 131072;
  rbuf = none;
  wbuf = none;
  wqueue = [];
  shutdown_write = false;
  connected = true;
}

abbrev client : Endpoint
client = record mux_end {
  type = simplex;
  transport = downstream;
  channel_id = 1;
  sink = some 0;
  rfd = some 6;
  wfd = some 6;
  rx_credit = 8192;
}

abbrev proxy : Proxy
proxy = record {
  up = record {
    type = multiplex;
    multiplexed = some 0;
    ep_list = [];
    garbage_list = [];
    next_channel_id = 1;
  };
  down = record {
    type = simplex;
    multiplexed = none;
    ep_list = 1 ∷ [];
    garbage_list = [];
    next_channel_id = 2;
  };
  endpoints = mux_end ∷ client ∷ [];
}

abbrev arrived : Buffer
arrived = (mux_packet 4 1 (7 ∷ 8 ∷ [])).0

arrived-IsValid : IsValid arrived
arrived-IsValid = (mux_packet-contents 4 1 (7 ∷ 8 ∷ []) (omega arith) (omega arith)).1

channel_1 : channel_by_id proxy.endpoints (transport proxy (other upstream)).ep_list 1 ≡ some 1
unfolding channel_by_id transport
channel_1 = refl

demux-mux_example :
    (b' : Buffer) × (contents b' ≡ 7 ∷ 8 ∷ [])
    × IsValid b'
    × (demux_packet true none proxy 0 arrived ≡ queue true proxy 1 (mbuf_wrap b' (some 0)))
demux-mux_example =
    demux-mux true none proxy 0 1 mux_end 4 1 (7 ∷ 8 ∷ []) arrived (omega arith) (omega arith)
      (omega arith) arrived-IsValid refl refl channel_1

-- All of the credit but one byte is used.
abbrev spent : Proxy
spent = record proxy { endpoints = record mux_end { rx_credit = 1 } ∷ client ∷ [] }

channel_1' : channel_by_id spent.endpoints (transport spent (other upstream)).ep_list 1 ≡ some 1
unfolding channel_by_id transport
channel_1' = refl

arrived-contents : contents arrived ≡ header_bytes (data_header 1 2) ++ 7 ∷ 8 ∷ []
arrived-contents = (mux_packet-contents 4 1 (7 ∷ 8 ∷ []) (omega arith) (omega arith)).0

demux-overdraft_example : demux_packet true none spent 0 arrived ≡ none
demux-overdraft_example =
    demux-overdraft true none spent 0 1 1 (record mux_end { rx_credit = 1 }) arrived (7 ∷ 8 ∷ [])
      arrived-IsValid (omega arith) (omega arith) arrived-contents refl channel_1' (omega arith)

total_small : (k : ℕ) → total k proxy.endpoints < 2 ^ 32
total_small zero = omega arith
total_small (suc zero) = omega arith
total_small (suc (suc k)) = omega arith

proxy-IsSound : IsSound proxy.endpoints
proxy-IsSound = record { queues = (tt, (tt, tt)); bound = total_small }

abbrev muxed : Proxy
muxed = record proxy {
  endpoints =
      record mux_end {
        wqueue =
            record { source = some 1; buffer = some (mux_packet 4096 1 (7 ∷ 8 ∷ [])).0; credit = 2 }
            ∷ [];
      }
      ∷ record client { rx_credit = 8190 }
      ∷ [];
}

muxes-proxy : (recv_mux three true none proxy 1 (7 ∷ 8 ∷ [])).0 ≡ some muxed
unfolding recv_mux recv_bufsiz mux_packet queue queue_write charge push_tail push_head reserve_head
    blit count header_bytes htonl
muxes-proxy = refl

Reach-Extends_example :
    IsSound muxed.endpoints × ((j : ℕ) → j < 2 → total j muxed.endpoints ≡ total j proxy.endpoints)
Reach-Extends_example =
    Reach-Extends three proxy muxed proxy-IsSound
      (Reach.next here (muxes true none 1 (7 ∷ 8 ∷ []) muxes-proxy))

-- The client's read side is shut down, and bytes for it are left.
abbrev half_closed : Endpoint
half_closed = record client { rfd = none; wbuf = some arrived }

poll-half_closed :
    poll half_closed ≡ some (record { fd = none; pollin = false; pollout = true } ∷ [])
unfolding poll pending poll_two same_fd count mux_packet push_tail push_head reserve_head blit
    header_bytes htonl
poll-half_closed = refl

poll-Writes_example :
    All (λ p. ¬ Writes half_closed p) (record { fd = none; pollin = false; pollout = true } ∷ [])
poll-Writes_example = poll-Writes half_closed _ (λ e. ground (arith, e)) poll-half_closed

abbrev fresh : Buffer
fresh = init (zeros 20)

fresh-IsReceiving : IsReceiving fresh
fresh-IsReceiving = record {
  valid = record { order = omega arith; fits = omega arith; memory = refl; range = omega arith };
  start = refl;
  pending = inl (omega arith);
  room = omega arith;
}

loop-Framed_example :
    Framed three three-IsStream wire [] 14 false (loop three 14 wire fresh 14 false)
loop-Framed_example =
    loop-Framed three three-IsStream 14 wire fresh 14 false fresh-IsReceiving (omega arith)
      (omega arith)
