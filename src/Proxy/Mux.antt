-- ===== src/Proxy/Mux.antt =====
-- A packet that proxy_recv_mux makes is one that proxy_recv_demux and proxy_demux_packet take apart.
use testbus.Base.{
  ℕ, ◌+◌, ◌-◌, ◌%◌, ◌^◌, ◌≤◌, ◌<◌, ◌≡◌, refl, List, ◌++◌, some, false, arith, length, length-append,
  length-replicate, take, drop, take-length-append, drop-length-append, ltb, ap, sym, ◌∙◌, subst,
}
use testbus.Buffer.{Buffer, init, put, push_tail, push_head, reserve_head, pull_head, count}
use testbus.Buffer.Bytes.{IsValid, contents, length-bytes, take-bytes, drop-bytes}
use testbus.Buffer.Frame.{reserve_lem, put_fits, push_lem}
use testbus.Proxy.Header.{
  Header, header_size, header_bytes, read_header, read-header_bytes, length-header_bytes,
  packet_size, IsWord, channel_data, packet_size-append,
}
use testbus.Proxy.Demux.{zeros}
use testbus.Proxy.Framing.{Whole}
use testbus.Proxy.Receive.{mux_packet}

-- ni_buffer_push_tail does what ni_buffer_put does, where the bytes fit.
push_tail-put :
    (b : Buffer) (xs : List ℕ)
    → b.tail + length xs ≤ b.size
    → b.size < 2 ^ 63
    → (push_tail b xs).1 ≡ (put b xs).1
unfolding push_tail put
push_tail-put b xs h r =
    let go : ltb (b.size - b.tail) (length xs) ≡ false = ground (arith, h) in
    let go' : ltb b.size ((b.tail + length xs) % 2 ^ 64) ≡ false = ground (arith, h, r) in
    rw (go, go') refl

abbrev pub data_header : ℕ → ℕ → Header
data_header channel n = record { cmd = channel_data; channel = channel; count = n }

pub count-contents :
    (b : Buffer) → IsValid b → length (contents b) < 2 ^ 32 → count b ≡ length (contents b)
unfolding count
count-contents b v h =
    let len =
      length-bytes b.base b.head (b.tail - b.head) (omega (arith, v.order, v.fits, v.memory)) in
    ground (arith, len, h)

abbrev count_of : Header → ℕ
count_of h = h.count

abbrev head_of : Buffer → ℕ
head_of b = b.head

framed :
    (channel : ℕ) (xs : List ℕ) (b : Buffer)
    → IsValid b
    → contents b ≡ xs
    → b.head ≡ header_size
    → length xs < 2 ^ 32
    → let b' = (push_head b (header_bytes (data_header channel (count b)))).1 in
      (contents b' ≡ header_bytes (data_header channel (length xs)) ++ xs)
      × IsValid b'
      × (count b ≡ length xs)
framed channel xs b v e h few =
    let n = count-contents b v (omega (arith, ap length e, few)) ∙ ap length e in
    let (ok, more, v') =
      push_lem b (header_bytes (data_header channel (count b))) v
        (omega (arith, length-header_bytes (data_header channel (count b)), h)) in
    (
      more
          ∙ ap (λ ys. header_bytes (data_header channel (count b)) ++ ys) e
          ∙ ap (λ n. header_bytes (data_header channel n) ++ xs) n,
      v',
      n,
    )

-- The packet of proxy_recv_mux, for up to `rcount` bytes, is a header with the channel and their number,
-- and the bytes; only the bytes are charged.
pub mux_packet-contents :
    (rcount channel : ℕ) (xs : List ℕ)
    → rcount < 2 ^ 32
    → length xs ≤ rcount
    → let (b, n) = mux_packet rcount channel xs in
      (contents b ≡ header_bytes (data_header channel (length xs)) ++ xs)
      × IsValid b
      × (n ≡ length xs)
unfolding mux_packet
mux_packet-contents rcount channel xs r h =
    let b0 = init (zeros (rcount + header_size)) in
    let len : length (zeros (rcount + header_size)) ≡ rcount + header_size =
      length-replicate {A = ℕ} (rcount + header_size) 0 in
    let v0 : IsValid b0 = record {
      order = omega arith;
      fits = omega arith;
      memory = refl;
      range = omega (arith, len);
    } in
    let (ok1, v1, head1, tail1, size1, empty) =
      reserve_lem b0 header_size v0 refl (omega (arith, len)) in
    let b1 = (reserve_head b0 header_size).1 in
    let fits : b1.tail + length xs ≤ b1.size = omega (arith, tail1, size1, len, h) in
    let (ok2, more, v2, head2) = put_fits b1 xs v1 fits in
    let same = push_tail-put b1 xs fits (omega (arith, size1, len, r)) in
    framed channel xs (push_tail b1 xs).1 (subst IsValid (sym same) v2)
      (ap contents same ∙ more ∙ ap (λ ys. ys ++ xs) empty)
      (omega (arith, ap head_of same, head2, head1)) (omega (arith, h, r))

-- It is a packet as proxy_recv_demux tells them apart, if its bytes are at most 2 ^ 32 - 13.
pub packet-Whole :
    (channel : ℕ) (xs : List ℕ)
    → channel < 2 ^ 32
    → length xs + header_size < 2 ^ 32
    → Whole (header_bytes (data_header channel (length xs)) ++ xs)
unfolding packet_size
packet-Whole channel xs c h =
    let hdr = header_bytes (data_header channel (length xs)) in
    let same =
      read-header_bytes (data_header channel (length xs)) xs (omega arith, c, omega (arith, h)) in
    let len = length-append hdr xs in
    let len' = length-header_bytes (data_header channel (length xs)) in
    (omega (arith, len, len'), omega (arith, len, len', h, ap count_of same))

-- ni_buffer_pull_head of the header.
pub pull-header :
    (b : Buffer) (h : Header) (xs : List ℕ)
    → IsValid b
    → contents b ≡ header_bytes h ++ xs
    → ((pull_head b header_size).0 ≡ some (header_bytes h))
      × (contents (pull_head b header_size).1 ≡ xs)
      × IsValid (pull_head b header_size).1
unfolding pull_head header_bytes testbus.Proxy.Header.htonl
pull-header b h xs v e =
    let len =
      length-bytes b.base b.head (b.tail - b.head) (omega (arith, v.order, v.fits, v.memory)) in
    let more : header_size ≤ b.tail - b.head =
      omega (arith, len, ap length e, length-append (header_bytes h) xs, length-header_bytes h) in
    let go : ltb (b.tail - b.head) header_size ≡ false = ground (arith, more) in
    rw go (
      ap some (
          take-bytes b.base b.head (b.tail - b.head) header_size more
          ∙ ap (take header_size) e
          ∙ take-length-append (header_bytes h) xs),
      sym (
            drop-bytes b.base b.head (b.tail - b.head) header_size (b.head + header_size)
              (b.tail - (b.head + header_size)) refl (omega arith))
          ∙ ap (drop header_size) e
          ∙ drop-length-append (header_bytes h) xs,
      record {
        order = omega (arith, more, v.order);
        fits = v.fits;
        memory = v.memory;
        range = v.range;
      },
    )
