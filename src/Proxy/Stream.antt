-- ===== src/Proxy/Stream.antt =====
-- All calls of proxy_recv_demux for one multiplexed connection.
use testbus.Base.{
  ℕ, ◌^◌, ◌≤◌, ◌≡◌, refl, List, [], ◌∷◌, ◌++◌, append-nil, append_assoc, Option, none, some, false,
  arith, All, All-append, length, length-append, length-replicate, inl, take, take-length-append,
  drop, drop-length-append, ap, sym, ◌∙◌, subst,
}
use testbus.Buffer.{Buffer}
use testbus.Buffer.Bytes.{contents}
use testbus.Proxy.Header.{packet_size, packet_size-append}
use testbus.Proxy.Socket.{Socket, IsStream}
use testbus.Proxy.Demux.{
  End, packet, part, closed, broken, aborted, out_of_fuel, zeros, receive_buffer, keep, receive,
  loop,
}
use testbus.Proxy.Framing.{Whole, IsReceiving}
use testbus.Proxy.Packets.{Ready, Framed, loop-Framed}

abbrev pub flatten : List (List ℕ) → List ℕ
flatten [] = []
flatten (xs ∷ xss) = xs ++ flatten xss

-- Packets are told apart: two streams of packets agree as far as both go.
Whole-unique : (p q xs ys : List ℕ) → Whole p → Whole q → p ++ xs ≡ q ++ ys → (p ≡ q) × (xs ≡ ys)
Whole-unique p q xs ys (a, e) (b, f) same =
    let size : length p ≡ length q =
      e
      ∙ sym (packet_size-append p xs a)
      ∙ ap packet_size same
      ∙ packet_size-append q ys b
      ∙ sym f in
    (
      sym (take-length-append p xs)
          ∙ ap (take (length p)) same
          ∙ ap (λ n. take n (q ++ ys)) size
          ∙ take-length-append q ys,
      sym (drop-length-append p xs)
          ∙ ap (drop (length p)) same
          ∙ ap (λ n. drop n (q ++ ys)) size
          ∙ drop-length-append q ys,
    )

pub packets_prefix :
    (qs ps : List (List ℕ)) (r : List ℕ)
    → All Whole qs
    → All Whole ps
    → flatten qs ++ r ≡ flatten ps
    → (rs : List (List ℕ)) × (ps ≡ qs ++ rs) × (r ≡ flatten rs)
packets_prefix [] ps r wq wp e = (ps, refl, e)
packets_prefix (q ∷ qs) [] r wq wp e = absurd (
    omega
      (arith, wq.0.0, length-append (q ++ flatten qs) r, length-append q (flatten qs), ap length e))
packets_prefix (q ∷ qs) (p ∷ ps) r wq wp e =
    let (one, rest) = Whole-unique q p _ _ wq.0 wp.0 (sym (append_assoc q (flatten qs) r) ∙ e) in
    let (rs, more, left) = packets_prefix qs ps r wq.1 wp.1 rest in
    (rs, ap (λ p. p ∷ ps) (sym one) ∙ ap (◌∷◌ q) more, left)

-- The bytes of a packet that is not complete.
abbrev pub held : Option Buffer → List ℕ
held none = []
held (some b) = contents b

abbrev pub IsHeld : Option Buffer → Type 0
IsHeld none = Unit {0}
IsHeld (some b) = IsReceiving b

length-zeros : length (zeros 4108) ≡ 4108
length-zeros = length-replicate {A = ℕ} 4108 0

flatten-append : (xss yss : List (List ℕ)) → flatten (xss ++ yss) ≡ flatten xss ++ flatten yss
flatten-append [] yss = refl
flatten-append (xs ∷ xss) yss =
    ap (λ ys. xs ++ ys) (flatten-append xss yss) ∙ sym (append_assoc xs _ _)

flatten_chain :
    (qss pss : List (List ℕ)) (a b c : List ℕ)
    → a ≡ flatten qss ++ b
    → b ≡ flatten pss ++ c
    → a ≡ flatten (qss ++ pss) ++ c
flatten_chain qss pss a b c e f =
    e
    ∙ ap (λ ys. flatten qss ++ ys) f
    ∙ sym (append_assoc (flatten qss) (flatten pss) c)
    ∙ ap (λ ys. ys ++ c) (sym (flatten-append qss pss))

receive_buffer-IsReceiving :
    (rbuf : Option Buffer)
    → IsHeld rbuf
    → IsReceiving (receive_buffer rbuf) × (contents (receive_buffer rbuf) ≡ held rbuf)
unfolding receive_buffer
receive_buffer-IsReceiving none h = (
  record {
    valid = record {
      order = omega arith;
      fits = omega arith;
      memory = length-zeros;
      range = omega arith;
    };
    start = refl;
    pending = inl (omega arith);
    room = omega arith;
  },
  refl,
)
receive_buffer-IsReceiving (some b) h = (h, refl)

-- The packets that a call hands to proxy_demux_packet.
unfoldable pub delivered : End → Buffer → List (List ℕ)
delivered packet b = contents b ∷ []
delivered _ b = []

module _ (k : Socket) where
  -- Calls with the given numbers of bytes. After the assertion has failed, nothing more is delivered.
  unfoldable pub run : List ℕ → Option Buffer → k.State → List (List ℕ) × Option Buffer × k.State
  unfolding receive delivered
  run [] rbuf s = ([], rbuf, s)
  run (r ∷ rs) rbuf s =
      let (e, b, rbuf', s') = receive k rbuf s r in
      let (ps, rbuf'', s'') = run rs rbuf' s' in (delivered e b ++ ps, rbuf'', s'')

  module _ (st : IsStream k) where
    -- After a call.
    abbrev Kept : k.State → List ℕ → End → Buffer → k.State → Type 0
    Kept s bs e b s' =
        IsHeld (keep k e b)
        × All Whole (delivered e b)
        × (bs ++ st.stream s ≡ flatten (delivered e b) ++ (held (keep k e b) ++ st.stream s'))

    Framed-Kept :
        (s : k.State) (bs : List ℕ) (r : ℕ) (e : End) (b : Buffer) (s' : k.State)
        → Framed k st s bs r false (e, b, s')
        → Kept s bs e b s'
    unfolding keep delivered
    Framed-Kept s bs r e b s' (xs, here, cont, v, rd) = go e rd
      where
        same : bs ++ st.stream s ≡ contents b ++ st.stream s'
        same =
            ap (λ ys. bs ++ ys) here
            ∙ sym (append_assoc bs xs _)
            ∙ ap (λ ys. ys ++ st.stream s') (sym cont)

        go : (e : End) → Ready e (contents b) (length xs) r false → Kept s bs e b s'
        go packet (w, lt) =
            (tt, (w, tt), same ∙ ap (λ ys. ys ++ st.stream s') (sym (append-nil (contents b))))
        go part h = (v, tt, same)
        go closed h = (v, tt, same)
        go broken h = (v, tt, same)
        go aborted h = (v, tt, same)
        go out_of_fuel h = absurd h

    receive-Kept :
        (rbuf : Option Buffer) (s : k.State) (r : ℕ)
        → IsHeld rbuf
        → r ≤ 2 ^ 31
        → let (e, b, rbuf', s') = receive k rbuf s r in Kept s (held rbuf) e b s'
    unfolding receive
    receive-Kept rbuf s r h le =
        let (v, same) = receive_buffer-IsReceiving rbuf h in
        Framed-Kept s (held rbuf) r _ _ _ (
          subst (λ bs. Framed k st s bs r false (loop k r s (receive_buffer rbuf) r false)) same
            (loop-Framed k st r s (receive_buffer rbuf) r false v (omega arith) le))

    -- Calls of proxy_recv_demux, each for at most 2 ^ 31 bytes, cut the stream into whole packets: what
    -- they deliver, what is left in `rbuf`, and what is still to be read are the bytes that were in
    -- `rbuf` and in the stream.
    pub run-flatten :
        (rs : List ℕ) (rbuf : Option Buffer) (s : k.State)
        → IsHeld rbuf
        → All (λ r. r ≤ 2 ^ 31) rs
        → let (ps, rbuf', s') = run rs rbuf s in
          IsHeld rbuf'
          × All Whole ps
          × (held rbuf ++ st.stream s ≡ flatten ps ++ (held rbuf' ++ st.stream s'))
    unfolding run receive
    run-flatten [] rbuf s h le = (h, tt, refl)
    run-flatten (r ∷ rs) rbuf s h le =
        let (h', w, same) = receive-Kept rbuf s r h le.0 in
        let (h'', ws, rest) = run-flatten rs _ _ h' le.1 in
        (
          h'',
          All-append Whole _ _ w ws,
          flatten_chain (delivered (receive k rbuf s r).0 (receive k rbuf s r).1) _ _ _ _ same rest,
        )

    -- From a packet boundary on, what is delivered of a stream of packets is its packets, in order and
    -- unchanged, up to the last one that was read completely: of the others a part of the first is in
    -- `rbuf`, and the rest is still to be read.
    pub run-packets :
        (rs : List ℕ) (s : k.State) (ps : List (List ℕ))
        → All (λ r. r ≤ 2 ^ 31) rs
        → All Whole ps
        → st.stream s ≡ flatten ps
        → let (qs, rbuf, s') = run rs none s in
          (rest : List (List ℕ)) × (ps ≡ qs ++ rest) × (held rbuf ++ st.stream s' ≡ flatten rest)
    run-packets rs s ps le w e =
        let (h, wq, same) = run-flatten rs none s tt le in packets_prefix _ ps _ wq w (sym same ∙ e)
