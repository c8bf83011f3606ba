-- ===== src/Proxy/Demux.antt =====
-- proxy/main.c, the loop of proxy_recv_demux, which collects one packet from a multiplexed connection.
use testbus.Base.{
  ℕ, zero, suc, ◌+◌, ◌-◌, List, Bool, true, false, Option, none, some, length, drop, replicate,
  if◌then◌else◌, ltb, ◌==◌, min,
}
use testbus.Buffer.{Buffer, init, count, push_tail, ensure_tailroom}
use testbus.Proxy.Header.{header_size, packet_size}
use testbus.Proxy.Socket.{Socket, ReadResult, got, eof, failed}

-- How the loop ends: a packet for proxy_demux_packet; a `break` or `rcount == 0` with a part of one;
-- the peer has closed the connection; an error of read(); or the assertion fails.
pub data End : Type 0 where
  packet : End
  part : End
  closed : End
  broken : End
  aborted : End
  out_of_fuel : End

-- The next number of bytes to ask for, `none` where the assertion fails.
pub data Next : Type 0 where
  whole : Next
  more : ℕ → Next
  bad : Next

-- With `avail` bytes in the buffer, and the packet's size, which is read if they hold a header.
unfoldable pub next : ℕ → ℕ → Next
next avail pktsize =
    if ltb avail header_size
    then more (header_size - avail)
    else if avail == pktsize
    then whole
    else if ltb avail pktsize
    then more (pktsize - avail)
    else bad

-- New memory; xmalloc and xrealloc leave its bytes open, and nothing reads them.
abbrev pub zeros : ℕ → List ℕ
zeros n = replicate n 0

-- `rbuf`: the packet read so far, or a new buffer at a packet boundary.
unfoldable pub receive_buffer : Option Buffer → Buffer
receive_buffer none = init (zeros (4096 + header_size))
receive_buffer (some b) = b

-- __proxy_recv_bufsiz, with the number that fcntl(FIONREAD) gives, `none` where it fails.
unfoldable pub recv_bufsiz : Option ℕ → ℕ → ℕ
recv_bufsiz none rx_credit = min 4096 rx_credit
recv_bufsiz (some n) rx_credit = min n rx_credit

module _ (k : Socket) where
  abbrev pub Result : Type 0
  Result = End × Buffer × k.State

  -- After read(): `go` is the rest of the loop.
  unfoldable pub after :
      (k.State → Buffer → ℕ → Result) → ReadResult → k.State → Buffer → ℕ → Bool → Result
  after go (got xs) s b rcount read_some = go s (push_tail b xs).1 (rcount - length xs)
  after go eof s b rcount read_some = (if read_some then part else closed, b, s)
  after go failed s b rcount read_some = (broken, b, s)

  unfoldable pub body :
      (k.State → Buffer → ℕ → Result) → Next → k.State → Buffer → ℕ → Bool → Result
  body go whole s b rcount read_some = (packet, b, s)
  body go bad s b rcount read_some = (aborted, b, s)
  body go (more n) s b rcount read_some =
      let rnext = min n rcount in
      let (result, s') = k.read s rnext in
      after go result s' (ensure_tailroom b (zeros rnext)) rcount read_some

  -- The loop; `fuel` bounds its rounds.
  unfoldable pub loop : ℕ → k.State → Buffer → ℕ → Bool → Result
  loop fuel s b zero read_some = (part, b, s)
  loop zero s b (suc r) read_some = (out_of_fuel, b, s)
  loop (suc fuel) s b (suc r) read_some =
      body (λ s' b' r'. loop fuel s' b' r' true) (next (count b) (packet_size (drop b.head b.base)))
        s b (suc r) read_some

  -- proxy_recv_demux, as far as `rbuf` goes: how the loop ended, with what in the buffer, and what
  -- `rbuf` is then.
  unfoldable pub keep : End → Buffer → Option Buffer
  keep packet b = none
  keep _ b = some b

  unfoldable pub receive : Option Buffer → k.State → ℕ → End × Buffer × Option Buffer × k.State
  unfolding keep loop receive_buffer
  receive rbuf s rcount =
      let (e, b, s') = loop rcount s (receive_buffer rbuf) rcount false in (e, b, keep e b, s')
