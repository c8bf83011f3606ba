-- ===== src/Tests/Buffers.antt =====
-- include/dborb/buffer.h at small inputs.
use testbus.Base.{ℕ, ◌≡◌, refl, List, [], ◌∷◌, none, some, true, false, arith, if◌then◌else◌, ltb}
use testbus.Buffer.{
  Buffer, init, put, get, getc, ungetc, push_tail, pull_head, clear, blit, same_char,
}
use testbus.Buffer.Bytes.{IsValid}
use testbus.Buffer.Pipe.{
  Op, puts, pushes, gets, pulls, getcs, clears, step, run, written, read_byte, spec_run, view,
}
use testbus.Buffer.Fifo.{buffer_refines}
use testbus.Buffer.Frame.{getc-ungetc}
use testbus.Buffer.Chain.{append, get_next}

abbrev buffer : Buffer
buffer = init (0 ∷ 0 ∷ 0 ∷ 0 ∷ 0 ∷ 0 ∷ [])

buffer-IsValid : IsValid buffer
buffer-IsValid = record {
  order = omega arith;
  fits = omega arith;
  memory = refl;
  range = omega arith;
}

-- Four bytes fit, three more do not.
abbrev script : List Op
script =
    puts (1 ∷ 2 ∷ 3 ∷ 4 ∷ [])
    ∷ getcs
    ∷ pushes (5 ∷ 6 ∷ 7 ∷ [])
    ∷ gets 2
    ∷ pulls 2
    ∷ clears
    ∷ getcs
    ∷ []

run-script :
    run buffer script
    ≡ some [] ∷ some (1 ∷ []) ∷ none ∷ some (2 ∷ 3 ∷ []) ∷ none ∷ some [] ∷ none ∷ []
unfolding run step written read_byte put get getc push_tail pull_head clear blit
run-script = refl

buffer_refines_example : run buffer script ≡ spec_run (view buffer) script
buffer_refines_example =
    buffer_refines buffer script buffer-IsValid
      (omega arith, (tt, (omega arith, (omega arith, (omega arith, (tt, (tt, tt)))))))

-- A byte that is read as 200 cannot be put back.
abbrev read_200 : Buffer
read_200 = record (init (200 ∷ 7 ∷ [])) { tail = 2 }

refused-200 : ungetc (getc read_200).1 200 ≡ (false, (getc read_200).1)
unfolding getc ungetc same_char
refused-200 = refl

getc-ungetc_example :
    (c : ℕ) × ((getc read_200).0 ≡ some c)
    × (ungetc (getc read_200).1 c
        ≡ (if ltb c 128 then (true, read_200) else (false, (getc read_200).1)))
getc-ungetc_example =
    getc-ungetc read_200
      (record { order = omega arith; fits = omega arith; memory = refl; range = omega arith })
      (omega arith)

-- The second buffer of a chain of two, after the first was taken.
next-two : get_next (get_next (append (append [] buffer) read_200)).1 ≡ (some read_200, [])
unfolding append get_next
next-two = refl
