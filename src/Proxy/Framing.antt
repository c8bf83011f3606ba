-- ===== src/Proxy/Framing.antt =====
-- Packets are collected whole, however the stream is cut.
use testbus.Base.{
  ℕ, zero, suc, ◌+◌, ◌-◌, ◌^◌, ◌≤◌, ◌<◌, ◌≡◌, ◌⊎◌, inl, inr, refl, List, [], ◌∷◌, ◌++◌, false,
  arith, length, length-append, length-replicate, drop, ltb, leb, ◌==◌, Bool-cases, ap, sym, ◌∙◌,
  subst,
}
use testbus.Buffer.{Buffer, count, push_tail, ensure_tailroom, tailroom}
use testbus.Buffer.Bytes.{
  IsValid, contents, bytes, length-bytes, bytes-append, bytes-blit_tail, length-blit,
}
use testbus.Proxy.Header.{header_size, packet_size, packet_size-append, packet_size_lt}
use testbus.Proxy.Demux.{zeros, Next, whole, more, bad, next}

-- What may stand in `rbuf`: up to a header, or up to a packet.
abbrev pub Pending : List ℕ → Type 0
Pending bs = (length bs ≤ header_size) ⊎ (length bs ≤ packet_size bs)

-- A packet, with the number of bytes that its header says.
abbrev pub Whole : List ℕ → Type 0
Whole bs = (header_size ≤ length bs) × (length bs ≡ packet_size bs)

-- A receive buffer: nothing was read from it, and an unsigned int counts its room.
pub record IsReceiving (b : Buffer) : Type 0 where
  pub valid : IsValid b
  pub start : b.head ≡ 0
  pub pending : Pending (contents b)
  pub room : b.size < b.tail + 2 ^ 32

-- Two spellings of the bytes from the front on.
take_rest : (xs : List ℕ) (n : ℕ) → n ≤ length xs → (r : List ℕ) × (xs ≡ bytes xs 0 n ++ r)
take_rest xs zero h = (xs, refl)
take_rest [] (suc n) h = absurd (omega arith)
take_rest (x ∷ xs) (suc n) h = let (r, e) = take_rest xs n (omega arith) in (r, ap (◌∷◌ x) e)

pending_lt : (bs : List ℕ) → Pending bs → length bs < 2 ^ 32
pending_lt bs (inl h) = omega arith
pending_lt bs (inr h) = omega (arith, packet_size_lt bs)

count_lem :
    (b : Buffer) → IsReceiving b → (count b ≡ length (contents b)) × (b.tail ≡ length (contents b))
unfolding count
count_lem b v =
    let len =
      length-bytes b.base b.head (b.tail - b.head)
        (omega (arith, v.valid.order, v.valid.fits, v.valid.memory)) in
    let few : length (contents b) < 2 ^ 32 = pending_lt (contents b) v.pending in
    (ground (arith, len, few), omega (arith, len, v.start))

-- What the loop asks for.
pub data IsNext (bs : List ℕ) : Next → Type 0 where
  is_whole : Whole bs → IsNext bs whole
  is_bad : header_size ≤ length bs → packet_size bs < header_size → IsNext bs bad
  is_header : (n : ℕ) → 0 < n → length bs + n ≡ header_size → IsNext bs (more n)
  is_rest :
      (n : ℕ)
      → 0 < n
      → header_size ≤ length bs
      → length bs + n ≡ packet_size bs
      → IsNext bs (more n)

next-IsNext :
    (bs : List ℕ) (size : ℕ)
    → Pending bs
    → (header_size ≤ length bs → size ≡ packet_size bs)
    → IsNext bs (next (length bs) size)
unfolding next
next-IsNext bs size p h = elim (Bool-cases (ltb (length bs) header_size)) [
  | inl few ↦ rw few (is_header _ (ground (arith, few)) (ground (arith, few)))
  | inr enough ↦
      let same = h (ground (arith, enough)) in
      elim (Bool-cases (length bs == size)) [
        | inl all ↦ rw (enough, all) (is_whole (ground (arith, enough), ground (arith, all, same)))
        | inr rest ↦ elim (Bool-cases (ltb (length bs) size)) [
          | inl lt ↦
              rw (enough, rest, lt)
                (is_rest _ (ground (arith, lt)) (ground (arith, enough)) (ground (arith, lt, same)))
          | inr ge ↦
              rw (enough, rest, ge)
                (is_bad (ground (arith, enough)) (ground (arith, rest, ge, p, enough, same)))
        ]
      ]
]

pub next_lem :
    (b : Buffer)
    → IsReceiving b
    → IsNext (contents b) (next (count b) (packet_size (drop b.head b.base)))
next_lem b v =
    let (len, tail) = count_lem b v in
    let (r, e) = take_rest b.base b.tail (omega (arith, v.valid.fits, v.valid.memory)) in
    let front : contents b ≡ bytes b.base 0 b.tail =
      ap (λ h. bytes b.base h (b.tail - b.head)) v.start
      ∙ ap (bytes b.base 0) (omega (arith, v.start)) in
    let split : drop b.head b.base ≡ contents b ++ r =
      ap (λ h. drop h b.base) v.start ∙ e ∙ sym (ap (λ xs. xs ++ r) front) in
    subst (λ n. IsNext (contents b) (next n (packet_size (drop b.head b.base)))) (sym len)
      (next-IsNext (contents b) (packet_size (drop b.head b.base)) v.pending
        λ h. ap packet_size split ∙ packet_size-append (contents b) r h)

-- Room for `n` more bytes.
pub grow_lem :
    (b : Buffer) (n : ℕ)
    → IsReceiving b
    → n ≤ 2 ^ 31
    → let b' = ensure_tailroom b (zeros n) in
      (contents b' ≡ contents b)
      × IsReceiving b'
      × (b'.head ≡ 0)
      × (b'.tail ≡ b.tail)
      × (n ≤ b'.size - b'.tail)
unfolding ensure_tailroom tailroom
grow_lem b n v h =
    let len : length (zeros n) ≡ n = length-replicate n 0 in
    elim (Bool-cases (leb (length (zeros n)) (tailroom b))) [
      | inl enough ↦ rw enough (refl, v, v.start, refl, ground (arith, enough, len, v.room))
      | inr little ↦
          let same =
            bytes-append b.base (zeros n) b.head (b.tail - b.head)
              (omega (arith, v.valid.order, v.valid.fits, v.valid.memory)) in
          rw little (
            same,
            record {
              valid = record {
                order = v.valid.order;
                fits = omega (arith, v.valid.fits);
                memory = length-append b.base (zeros n) ∙ omega (arith, v.valid.memory);
                range = ground (
                  arith,
                  little,
                  len,
                  h,
                  v.room,
                  count_lem b v,
                  pending_lt (contents b) v.pending,
                );
              };
              start = v.start;
              pending = subst Pending (sym same) v.pending;
              room = ground (arith, little, len, h);
            },
            v.start,
            refl,
            omega (arith, v.valid.fits, len),
          )
    ]

-- What read() stored is pushed.
pub push_lem :
    (b : Buffer) (xs : List ℕ)
    → IsReceiving b
    → length xs ≤ b.size - b.tail
    → Pending (contents b ++ xs)
    → let b' = (push_tail b xs).1 in (contents b' ≡ contents b ++ xs) × IsReceiving b'
unfolding push_tail
push_lem b xs v h p =
    let go : ltb (b.size - b.tail) (length xs) ≡ false = ground (arith, h) in
    let more =
      bytes-blit_tail b.base b.head (b.tail - b.head) xs b.tail (b.tail + length xs - b.head)
        (omega (arith, v.valid.order)) (omega (arith, v.valid.order))
        (omega (arith, h, v.valid.fits, v.valid.memory)) in
    rw go (
      more,
      record {
        valid = record {
          order = omega (arith, v.valid.order);
          fits = omega (arith, h, v.valid.fits);
          memory = length-blit b.base b.tail xs ∙ v.valid.memory;
          range = v.valid.range;
        };
        start = v.start;
        pending = subst Pending (sym more) p;
        room = omega (arith, v.room);
      },
    )
