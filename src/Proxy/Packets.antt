-- ===== src/Proxy/Packets.antt =====
-- proxy_recv_demux collects packets whole, however the stream is cut.
use testbus.Base.{
  ℕ, zero, suc, ◌-◌, ◌^◌, ◌≤◌, ◌<◌, ◌≡◌, inl, inr, refl, List, [], ◌++◌, append-nil, append_assoc,
  Bool, true, false, arith, length, length-append, min, if◌then◌else◌, ap, sym, ◌∙◌, subst,
}
use testbus.Buffer.{Buffer, push_tail, ensure_tailroom}
use testbus.Buffer.Bytes.{contents}
use testbus.Proxy.Header.{header_size, packet_size, packet_size-append}
use testbus.Proxy.Socket.{Socket, IsStream, ReadResult, got, eof, failed}
use testbus.Proxy.Demux.{
  End, packet, part, closed, broken, aborted, out_of_fuel, zeros, Next, Result, after, body, loop,
}
use testbus.Proxy.Framing.{
  Pending, Whole, IsReceiving, IsNext, is_whole, is_bad, is_header, is_rest, next_lem, grow_lem,
  push_lem,
}

-- What holds at the end of the loop for the bytes `bs` in the buffer, `n` of which the loop has read
-- when it could read `rcount`.
abbrev pub Ready : End → List ℕ → ℕ → ℕ → Bool → Type 0
Ready packet bs n rcount read_some = Whole bs × (n < rcount)
Ready part bs n rcount read_some = n ≤ rcount
Ready closed bs n rcount read_some = (read_some ≡ false) × (n ≡ 0)
Ready broken bs n rcount read_some = n < rcount
Ready aborted bs n rcount read_some = (header_size ≤ length bs) × (packet_size bs < header_size)
Ready out_of_fuel bs n rcount read_some = ⊥

module _ (k : Socket) (st : IsStream k) where
  abbrev pub Framed : k.State → List ℕ → ℕ → Bool → Result k → Type 0
  Framed s bs rcount read_some (e, b', s') =
      (xs : List ℕ) × (st.stream s ≡ xs ++ st.stream s')
      × (contents b' ≡ bs ++ xs)
      × IsReceiving b'
      × Ready e (contents b') (length xs) rcount read_some

  -- The loop goes on after `ys` were read.
  Framed-prepend :
      (s s' : k.State) (bs ys : List ℕ) (rcount : ℕ) (read_some : Bool) (r : Result k)
      → st.stream s ≡ ys ++ st.stream s'
      → 0 < length ys
      → length ys ≤ rcount
      → Framed s' (bs ++ ys) (rcount - length ys) true r
      → Framed s bs rcount read_some r
  Framed-prepend s s' bs ys rcount read_some (e, b', t) same pos le (xs, here, cont, v, rd) = (
    ys ++ xs,
    same ∙ ap (λ zs. ys ++ zs) here ∙ sym (append_assoc ys xs _),
    cont ∙ append_assoc bs ys xs,
    v,
    ready e rd,
  )
    where
      ready :
          (e : End)
          → Ready e (contents b') (length xs) (rcount - length ys) true
          → Ready e (contents b') (length (ys ++ xs)) rcount read_some
      ready packet (w, h) = (w, omega (arith, length-append ys xs, h))
      ready part h = omega (arith, length-append ys xs, le)
      ready closed (f, h) = ground (arith, f)
      ready broken h = omega (arith, length-append ys xs)
      ready aborted h = h
      ready out_of_fuel h = h

  -- Nothing more is read.
  Framed-stop :
      (s s' : k.State) (b : Buffer) (rcount : ℕ) (read_some : Bool) (e : End) (bs : List ℕ)
      → st.stream s ≡ st.stream s'
      → contents b ≡ bs
      → IsReceiving b
      → Ready e (contents b) 0 rcount read_some
      → Framed s bs rcount read_some (e, b, s')
  Framed-stop s s' b rcount read_some e bs same cont v rd =
      ([], same, cont ∙ sym (append-nil bs), v, rd)

  -- One read(), for a number of bytes that stays in the packet, and the rest of the loop.
  after-Framed :
      (go : k.State → Buffer → ℕ → Result k) (s : k.State) (b : Buffer) (n rcount : ℕ)
      (read_some : Bool)
      → ((s' : k.State) (b' : Buffer) (r : ℕ)
          → IsReceiving b'
          → r < rcount
          → Framed s' (contents b') r true (go s' b' r))
      → IsReceiving b
      → n ≤ rcount
      → rcount ≤ 2 ^ 31
      → 0 < rcount
      → ((xs : List ℕ) → length xs ≤ n → Pending (contents b ++ xs))
      → (res : ReadResult) → (k.read s n).0 ≡ res
      → Framed s
          (contents b)
          rcount
          read_some
          (after k go res (k.read s n).1 (ensure_tailroom b (zeros n)) rcount read_some)
  unfolding after
  after-Framed go s b n rcount read_some ih v le h pos p (got xs) e =
      let (same, w, head, tail, room) = grow_lem b n v (omega (arith, le, h)) in
      let (here, some, few) = st.read_got s n xs e in
      let (cont, w') =
        push_lem _ xs w (omega (arith, few, room))
          (subst (λ bs. Pending (bs ++ xs)) (sym same) (p xs few)) in
      Framed-prepend s _ (contents b) xs rcount read_some _ here some (omega (arith, few, le)) (
        subst
          (λ bs.
            Framed (k.read s n).1 bs (rcount - length xs) true (
              go (k.read s n).1 (push_tail (ensure_tailroom b (zeros n)) xs).1
                (rcount - length xs)))
          (cont ∙ ap (λ bs. bs ++ xs) same)
          (ih _ _ (rcount - length xs) w' (omega (arith, some, few, le, pos))))
  after-Framed go s b n rcount read_some ih v le h pos p eof e =
      let (same, w, head, tail, room) = grow_lem b n v (omega (arith, le, h)) in
      Framed-stop s _ _ rcount read_some _ _ (sym (st.read_eof s n e)) same w (ended read_some)
    where
      ended :
          (read_some : Bool)
          → Ready
              (if read_some then part else closed)
              (contents (ensure_tailroom b (zeros n)))
              0
              rcount
              read_some
      ended true = omega arith
      ended false = (refl, refl)
  after-Framed go s b n rcount read_some ih v le h pos p failed e =
      let (same, w, head, tail, room) = grow_lem b n v (omega (arith, le, h)) in
      Framed-stop s _ _ rcount read_some broken _ (sym (st.read_failed s n e)) same w pos

  body-Framed :
      (go : k.State → Buffer → ℕ → Result k) (s : k.State) (b : Buffer) (rcount : ℕ)
      (read_some : Bool)
      → ((s' : k.State) (b' : Buffer) (r : ℕ)
          → IsReceiving b'
          → r < rcount
          → Framed s' (contents b') r true (go s' b' r))
      → IsReceiving b
      → rcount ≤ 2 ^ 31
      → 0 < rcount
      → (n : Next) → IsNext (contents b) n
      → Framed s (contents b) rcount read_some (body k go n s b rcount read_some)
  unfolding body
  body-Framed go s b rcount read_some ih v h pos _ (is_whole w) =
      Framed-stop s s b rcount read_some packet _ refl refl v (w, pos)
  body-Framed go s b rcount read_some ih v h pos _ (is_bad f g) =
      Framed-stop s s b rcount read_some aborted _ refl refl v (f, g)
  body-Framed go s b rcount read_some ih v h pos _ (is_header n m e) =
      after-Framed go s b (min n rcount) rcount read_some ih v (omega arith) h pos
        (λ xs few. inl (omega (arith, length-append (contents b) xs, few, e))) _ refl
  body-Framed go s b rcount read_some ih v h pos _ (is_rest n m f e) =
      after-Framed go s b (min n rcount) rcount read_some ih v (omega arith) h pos
        (λ xs few. inr (
          omega
            (arith, length-append (contents b) xs, few, e, packet_size-append (contents b) xs f)))
        _ refl

  -- The loop of proxy_recv_demux, with as much fuel as `rcount`, which is at most 2 ^ 31, never runs
  -- out of fuel; what it read is appended to the receive buffer, which holds no more than one packet.
  -- It ends with a packet only if that is complete.
  pub loop-Framed :
      (fuel : ℕ) (s : k.State) (b : Buffer) (rcount : ℕ) (read_some : Bool)
      → IsReceiving b
      → rcount ≤ fuel
      → rcount ≤ 2 ^ 31
      → Framed s (contents b) rcount read_some (loop k fuel s b rcount read_some)
  unfolding loop
  loop-Framed fuel s b zero read_some v f h =
      Framed-stop s s b 0 read_some part _ refl refl v (omega arith)
  loop-Framed zero s b (suc r) read_some v f h = absurd (omega arith)
  loop-Framed (suc fuel) s b (suc r) read_some v f h =
      body-Framed _ s b (suc r) read_some
        (λ s' b' r' v' lt. loop-Framed fuel s' b' r' true v' (omega arith) (omega arith)) v h
        (omega arith) _ (next_lem b v)
