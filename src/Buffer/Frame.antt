-- ===== src/Buffer/Frame.antt =====
-- Room made at the tail and at the head of a buffer, and single bytes put back.
use testbus.Base.{
  ℕ, ◌+◌, ◌-◌, ◌%◌, ◌^◌, ◌≤◌, ◌<◌, ◌≡◌, refl, List, [], ◌++◌, some, true, false, arith, length,
  length-append, if◌then◌else◌, ◌==◌, ltb, leb, ==_refl, Bool-cases, inl, inr, ap, ◌∙◌,
}
use testbus.Buffer.{
  Buffer, put, getc, ungetc, same_char, reserve_head, push_head, ensure_tailroom, tailroom,
}
use testbus.Buffer.Bytes.{
  IsValid, bytes, contents, length-blit, bytes-blit_tail, bytes-blit_front, bytes-append,
  bytes-next,
}

pub put_fits :
    (b : Buffer) (xs : List ℕ)
    → IsValid b
    → b.tail + length xs ≤ b.size
    → ((put b xs).0 ≡ true)
      × (contents (put b xs).1 ≡ contents b ++ xs)
      × IsValid (put b xs).1
      × ((put b xs).1.head ≡ b.head)
unfolding put
put_fits b xs v h =
    let go : ltb b.size ((b.tail + length xs) % 2 ^ 64) ≡ false = ground (arith, h, v.range) in
    rw go (
      refl,
      bytes-blit_tail b.base b.head (b.tail - b.head) xs b.tail (b.tail + length xs - b.head)
          (omega (arith, v.order)) (omega (arith, v.order)) (omega (arith, h, v.memory)),
      record {
        order = omega (arith, v.order);
        fits = h;
        memory = length-blit b.base b.tail xs ∙ v.memory;
        range = v.range;
      },
      refl,
    )

ensure_lem :
    (b : Buffer) (room : List ℕ)
    → IsValid b
    → b.size < 2 ^ 32
    → length room < 2 ^ 32
    → (contents (ensure_tailroom b room) ≡ contents b)
      × IsValid (ensure_tailroom b room)
      × (b.tail + length room ≤ (ensure_tailroom b room).size)
      × ((ensure_tailroom b room).tail ≡ b.tail)
unfolding ensure_tailroom tailroom
ensure_lem b room v s t = elim (Bool-cases (leb (length room) (tailroom b))) [
  | inl enough ↦ rw enough (refl, v, ground (arith, enough, s, v.fits), refl)
  | inr little ↦ rw little (
    bytes-append b.base room b.head (b.tail - b.head) (omega (arith, v.order, v.fits, v.memory)),
    record {
      order = v.order;
      fits = omega (arith, v.fits);
      memory = length-append b.base room ∙ omega (arith, v.memory);
      range = omega (arith, s, t);
    },
    omega (arith, v.fits),
    refl,
  )
]

-- After ni_buffer_ensure_tailroom for a number of bytes the same bytes are there to be read, and a
-- write of up to that number succeeds and adds its bytes to them, if the buffer's size and that
-- number are below 2 ^ 32.
pub ensure_tailroom-put :
    (b : Buffer) (room xs : List ℕ)
    → IsValid b
    → b.size < 2 ^ 32
    → length room < 2 ^ 32
    → length xs ≤ length room
    → let b' = ensure_tailroom b room in
      (contents b' ≡ contents b)
      × IsValid b'
      × ((put b' xs).0 ≡ true)
      × (contents (put b' xs).1 ≡ contents b ++ xs)
      × IsValid (put b' xs).1
ensure_tailroom-put b room xs v s t h =
    let (same, w, fits, tail) = ensure_lem b room v s t in
    let (ok, more, w', head) =
      put_fits (ensure_tailroom b room) xs w (omega (arith, fits, tail, h)) in
    (same, w, ok, more ∙ ap (λ ys. ys ++ xs) same, w')

pub reserve_lem :
    (b : Buffer) (n : ℕ)
    → IsValid b
    → b.head ≡ b.tail
    → b.tail + n ≤ b.size
    → let b' = (reserve_head b n).1 in
      ((reserve_head b n).0 ≡ true)
      × IsValid b'
      × (b'.head ≡ b.tail + n)
      × (b'.tail ≡ b.tail + n)
      × (b'.size ≡ b.size)
      × (contents b' ≡ [])
unfolding reserve_head
reserve_lem b n v e h =
    let go : (b.head == b.tail) ≡ true = ground (arith, e) in
    rw go (
      refl,
      record { order = omega arith; fits = h; memory = v.memory; range = v.range },
      refl,
      refl,
      refl,
      ap (bytes b.base (b.tail + n)) (nothing (b.tail + n)),
    )
  where
    nothing : (k : ℕ) → k - k ≡ 0
    nothing k = omega arith

pub push_lem :
    (b : Buffer) (xs : List ℕ)
    → IsValid b
    → length xs ≤ b.head
    → let b' = (push_head b xs).1 in
      ((push_head b xs).0 ≡ true) × (contents b' ≡ xs ++ contents b) × IsValid b'
unfolding push_head
push_lem b xs v h =
    let go : ltb b.head (length xs) ≡ false = ground (arith, h) in
    rw go (
      refl,
      bytes-blit_front b.base (b.head - length xs) (b.tail - b.head) xs b.head
          (b.tail - (b.head - length xs)) (omega arith) (omega (arith, v.order))
          (omega (arith, v.order, v.fits, v.memory)),
      record {
        order = omega (arith, v.order);
        fits = v.fits;
        memory = length-blit b.base (b.head - length xs) xs ∙ v.memory;
        range = v.range;
      },
    )

-- A message is framed: room for a header is reserved in an empty buffer, the body is written, and the
-- header is put in front of it. Then the buffer holds header and body, provided that both fit behind
-- the tail; for ni_buffer_reserve_head itself does not check that.
pub reserve-push_head :
    (b : Buffer) (header body : List ℕ)
    → IsValid b
    → b.head ≡ b.tail
    → b.tail + length header + length body ≤ b.size
    → let b1 = reserve_head b (length header) in
      let b2 = put b1.1 body in
      let b3 = push_head b2.1 header in
      (b1.0 ≡ true)
      × (b2.0 ≡ true)
      × (b3.0 ≡ true)
      × (contents b3.1 ≡ header ++ body)
      × IsValid b3.1
reserve-push_head b header body v e h =
    let (ok1, v1, head1, tail1, size1, empty) =
      reserve_lem b (length header) v e (omega (arith, h)) in
    let b1 = (reserve_head b (length header)).1 in
    let (ok2, more, v2, head2) = put_fits b1 body v1 (omega (arith, tail1, size1, h)) in
    let (ok3, framed, v3) = push_lem (put b1 body).1 header v2 (omega (arith, head1, head2)) in
    (ok1, ok2, ok3, framed ∙ ap (λ ys. header ++ ys) (more ∙ ap (λ ys. ys ++ body) empty), v3)

-- A byte that was just read from a well-formed buffer can be put back exactly if it is below 128:
-- the buffer is then as before. A byte from 128 on is refused.
pub getc-ungetc :
    (b : Buffer)
    → IsValid b
    → b.head < b.tail
    → (c : ℕ) × ((getc b).0 ≡ some c)
      × (ungetc (getc b).1 c ≡ (if ltb c 128 then (true, b) else (false, (getc b).1)))
unfolding getc ungetc same_char
getc-ungetc b v h =
    let (c, here, rest) =
      bytes-next b.base b.head (b.tail - (b.head + 1)) (b.head + 1) refl
        (omega (arith, v.fits, v.memory)) in
    let more : leb b.tail b.head ≡ false = ground (arith, h) in
    (c, rw more here, rw (more, back b.head) (rw (here, first b.head) (ground (arith, ==_refl c))))
  where
    back : (k : ℕ) → k + 1 - 1 ≡ k
    back k = omega arith

    first : (k : ℕ) → (k + 1 == 0) ≡ false
    first k = ground arith
