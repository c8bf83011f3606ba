-- ===== src/Tests/Bits.antt =====
-- dborb/util.c, ni_bitfield_*, at small inputs.
use testbus.Base.{◌≡◌, refl, none, some, false, if◌then◌else◌, ◌==◌, ◌/◌, arith, replicate}
use testbus.Bitfield.{
  Bitfield, local, init, zero_word, words_at, grow, put_words, update, setbit, clearbit, testbit,
}
use testbus.Bitfield.Bits.{IsLocal, bits_lem, outside_lem}

-- A bit field in use, with no bit set.
abbrev empty : Bitfield
empty = record { size = 16; field = local; local_field = replicate 4 zero_word }

empty-IsLocal : IsLocal empty
empty-IsLocal = record { sized = refl; inside = refl; four = refl }

grow-init : grow init 0 ≡ empty
unfolding grow
grow-init = refl

bits_lem_example :
    (with_bit without : Bitfield) × (setbit empty 33 ≡ some with_bit)
    × (clearbit empty 33 ≡ some without)
    × IsLocal with_bit
    × IsLocal without
    × (testbit with_bit 40 ≡ (if 33 / 32 == 40 / 32 then some (33 == 40) else testbit empty 40))
    × (testbit without 40 ≡ (if 33 == 40 then some false else testbit empty 40))
bits_lem_example = bits_lem empty 33 40 empty-IsLocal (omega arith) (omega arith)

outside_lem_example :
    (setbit empty 200 ≡ none) × (clearbit empty 200 ≡ none) × (testbit empty 200 ≡ none)
outside_lem_example = outside_lem empty 200 empty-IsLocal (omega arith) (omega arith)

-- Words on the heap: of the 16 words counted, 16 bytes are copied, and the word of bit 544 is missing.
setbit-544 : setbit empty 544 ≡ none
unfolding setbit update grow words_at put_words
setbit-544 = refl

testbit-init : testbit init 5 ≡ some false
unfolding testbit
testbit-init = refl
