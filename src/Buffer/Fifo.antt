-- ===== src/Buffer/Fifo.antt =====
-- A buffer is a queue of bytes, with room that only ni_buffer_clear and ni_buffer_ensure_tailroom give back.
use testbus.Base.{
  ℕ, suc, ◌+◌, ◌-◌, ◌%◌, ◌^◌, ◌≤◌, ◌<◌, ◌≡◌, refl, List, [], ◌∷◌, none, some, true, false, arith,
  All, length, ltb, leb, Bool-cases, inl, inr, ap, sym, ◌∙◌,
}
use testbus.Buffer.{Buffer, put, get, getc, push_tail, pull_head, clear}
use testbus.Buffer.Bytes.{
  IsValid, bytes, contents, length-blit, bytes-blit_tail, drop-bytes, take-bytes, length-bytes,
  bytes-next,
}
use testbus.Buffer.Pipe.{
  Op, puts, pushes, gets, pulls, getcs, clears, InRange, Out, written, read_byte, step, run, Pipe,
  enter, leave, spec_step, spec_run, view,
}

-- One call: the same result, the same pipe, and the invariant.
abbrev Matches : Buffer → Op → Type 0
Matches b o = (((step b o).0, view (step b o).1) ≡ spec_step (view b) o) × IsValid (step b o).1

abbrev leaves : Out → List ℕ → ℕ → ℕ → Out × Pipe
leaves o q r s = (o, record { queue = q; room = r; size = s })

pipe_path :
    (o : Out) (q q' : List ℕ) (r r' s : ℕ) → q ≡ q' → r ≡ r' → leaves o q r s ≡ leaves o q' r' s
pipe_path o q q' r r' s e f = ap (λ q. leaves o q r s) e ∙ ap (λ r. leaves o q' r s) f

put_step : (b : Buffer) (xs : List ℕ) → IsValid b → length xs < 2 ^ 63 → Matches b (puts xs)
unfolding step spec_step put enter written
put_step b xs v r = elim (Bool-cases (leb (length xs) (b.size - b.tail))) [
  | inl fits ↦
      let go : ltb b.size ((b.tail + length xs) % 2 ^ 64) ≡ false =
        ground (arith, fits, v.fits, v.range, r) in
      let more =
        bytes-blit_tail b.base b.head (b.tail - b.head) xs b.tail (b.tail + length xs - b.head)
          (omega (arith, v.order)) (omega (arith, v.order))
          (ground (arith, fits, v.fits, v.memory)) in
      rw (go, fits)
        (
          pipe_path _ _ _ _ _ _ more (omega arith),
          record {
            order = omega (arith, v.order);
            fits = ground (arith, fits, v.fits);
            memory = length-blit b.base b.tail xs ∙ v.memory;
            range = v.range;
          },
        )
  | inr full ↦
      let stop : ltb b.size ((b.tail + length xs) % 2 ^ 64) ≡ true =
        ground (arith, full, v.fits, v.range, r) in
      rw (stop, full)
        (refl, record { order = v.order; fits = v.fits; memory = v.memory; range = v.range })
]

pub push_step : (b : Buffer) (xs : List ℕ) → IsValid b → Matches b (pushes xs)
unfolding step spec_step push_tail enter written
push_step b xs v = elim (Bool-cases (leb (length xs) (b.size - b.tail))) [
  | inl fits ↦
      let go : ltb (b.size - b.tail) (length xs) ≡ false = ground (arith, fits) in
      let more =
        bytes-blit_tail b.base b.head (b.tail - b.head) xs b.tail (b.tail + length xs - b.head)
          (omega (arith, v.order)) (omega (arith, v.order))
          (ground (arith, fits, v.fits, v.memory)) in
      rw (go, fits)
        (
          pipe_path _ _ _ _ _ _ more (omega arith),
          record {
            order = omega (arith, v.order);
            fits = ground (arith, fits, v.fits);
            memory = length-blit b.base b.tail xs ∙ v.memory;
            range = v.range;
          },
        )
  | inr full ↦
      let stop : ltb (b.size - b.tail) (length xs) ≡ true = ground (arith, full) in
      rw (stop, full)
        (refl, record { order = v.order; fits = v.fits; memory = v.memory; range = v.range })
]

get_step : (b : Buffer) (n : ℕ) → IsValid b → n < 2 ^ 63 → Matches b (gets n)
unfolding step spec_step get leave
get_step b n v r =
    let len =
      length-bytes b.base b.head (b.tail - b.head) (omega (arith, v.order, v.fits, v.memory)) in
    elim (Bool-cases (leb n (length (contents b)))) [
      | inl enough ↦
          let go : ltb b.tail ((b.head + n) % 2 ^ 64) ≡ false =
            ground (arith, enough, len, v.order, v.fits, v.range, r) in
          let le : n ≤ b.tail - b.head = ground (arith, enough, len) in
          rw (go, enough)
            (
              ap (λ xs. (some xs, view (record b { head = b.head + n })))
                    (take-bytes b.base b.head (b.tail - b.head) n le)
                  ∙ pipe_path _ _ _ _ _ _
                      (sym (
                        drop-bytes b.base b.head (b.tail - b.head) n (b.head + n)
                          (b.tail - (b.head + n)) refl (omega arith)))
                      refl,
              record {
                order = omega (arith, le, v.order);
                fits = v.fits;
                memory = v.memory;
                range = v.range;
              },
            )
      | inr few ↦
          let stop : ltb b.tail ((b.head + n) % 2 ^ 64) ≡ true =
            ground (arith, few, len, v.order, v.fits, v.range, r) in
          rw (stop, few)
            (refl, record { order = v.order; fits = v.fits; memory = v.memory; range = v.range })
    ]

pub pull_step : (b : Buffer) (n : ℕ) → IsValid b → Matches b (pulls n)
unfolding step spec_step pull_head leave
pull_step b n v =
    let len =
      length-bytes b.base b.head (b.tail - b.head) (omega (arith, v.order, v.fits, v.memory)) in
    elim (Bool-cases (leb n (length (contents b)))) [
      | inl enough ↦
          let go : ltb (b.tail - b.head) n ≡ false = ground (arith, enough, len) in
          let le : n ≤ b.tail - b.head = ground (arith, enough, len) in
          rw (go, enough)
            (
              ap (λ xs. (some xs, view (record b { head = b.head + n })))
                    (take-bytes b.base b.head (b.tail - b.head) n le)
                  ∙ pipe_path _ _ _ _ _ _
                      (sym (
                        drop-bytes b.base b.head (b.tail - b.head) n (b.head + n)
                          (b.tail - (b.head + n)) refl (omega arith)))
                      refl,
              record {
                order = omega (arith, le, v.order);
                fits = v.fits;
                memory = v.memory;
                range = v.range;
              },
            )
      | inr few ↦
          let stop : ltb (b.tail - b.head) n ≡ true = ground (arith, few, len) in
          rw (stop, few)
            (refl, record { order = v.order; fits = v.fits; memory = v.memory; range = v.range })
    ]

leave_one :
    (b : Buffer) (c : ℕ) (cs : List ℕ)
    → contents b ≡ c ∷ cs
    → leave (view b) 1 ≡ leaves (some (c ∷ [])) cs (b.size - b.tail) b.size
unfolding leave
leave_one b c cs e =
    ap (λ q. leave (record { queue = q; room = b.size - b.tail; size = b.size }) 1) e
    ∙ rw (leb_one c cs) refl
  where
    leb_one : (c : ℕ) (cs : List ℕ) → leb 1 (length (c ∷ cs)) ≡ true
    leb_one c cs = ground arith

leave-none : (b : Buffer) → contents b ≡ [] → leave (view b) 1 ≡ (none, view b)
unfolding leave
leave-none b e = rw e refl

getc_step : (b : Buffer) → IsValid b → Matches b getcs
unfolding step spec_step getc read_byte
getc_step b v = elim (Bool-cases (leb b.tail b.head)) [
  | inl end ↦
      let same : contents b ≡ [] = ap (bytes b.base b.head) (nothing b end) in
      rw end (sym (leave-none b same), v)
  | inr more ↦
      let (c, here, rest) =
        bytes-next b.base b.head (b.tail - (b.head + 1)) (b.head + 1) refl
          (ground (arith, more, v.fits, v.memory)) in
      let left : contents b ≡ c ∷ bytes b.base (b.head + 1) (b.tail - (b.head + 1)) =
        ap (bytes b.base b.head) (count b more) ∙ rest in
      rw (more, here)
        (
          sym (leave_one b c _ left),
          record {
            order = ground (arith, more);
            fits = v.fits;
            memory = v.memory;
            range = v.range;
          },
        )
]
  where
    nothing : (b : Buffer) → leb b.tail b.head ≡ true → b.tail - b.head ≡ 0
    nothing b h = ground (arith, h)

    count : (b : Buffer) → leb b.tail b.head ≡ false → b.tail - b.head ≡ suc (b.tail - (b.head + 1))
    count b h = ground (arith, h)

step_lem : (b : Buffer) (o : Op) → IsValid b → InRange o → Matches b o
unfolding step spec_step clear
step_lem b (puts xs) v r = put_step b xs v r
step_lem b (pushes xs) v r = push_step b xs v
step_lem b (gets n) v r = get_step b n v r
step_lem b (pulls n) v r = pull_step b n v
step_lem b getcs v r = getc_step b v
step_lem b clears v r = (
  pipe_path _ _ _ _ _ _ refl (omega arith),
  record { order = omega arith; fits = omega arith; memory = v.memory; range = v.range },
)

-- Under every sequence of calls that ask for less than 2 ^ 63 bytes each, a well-formed buffer is a
-- queue of bytes: what is read is what was written, in order and once; a write that does not fit in
-- the room and a read of more than there is fail and change no byte; and reading gives no room back.
pub buffer_refines :
    (b : Buffer) (os : List Op) → IsValid b → All InRange os → run b os ≡ spec_run (view b) os
unfolding run spec_run
buffer_refines b [] v r = refl
buffer_refines b (o ∷ os) v r =
    let (same, w) = step_lem b o v r.0 in
    ap (◌∷◌ (step b o).0) (buffer_refines (step b o).1 os w r.1)
    ∙ ap (λ x. x.0 ∷ spec_run x.1 os) same
