-- ===== src/Bitfield.antt =====
-- dborb/util.c, ni_bitfield_*: sets of small numbers as bits of 32-bit words.
pub mod Bits
use testbus.Base.{
  ℕ, ◌+◌, ◌-◌, ◌*◌, ◌/◌, ◌%◌, List, [], ◌∷◌, ◌++◌, Option, none, some, Bool, true, false, get_or,
  length, set, take, replicate, if◌then◌else◌, ltb, leb,
}

-- A uint32_t, as its 32 bits from the lowest on.
abbrev pub Word : Type 0
Word = List Bool

abbrev pub zero_word : Word
zero_word = replicate 32 false

-- Where `field` points: nowhere, to __local_field, or to memory of its own.
pub data Field : Type 0 where
  nowhere : Field
  local : Field
  heap : List Word → Field

-- struct ni_bitfield
pub record Bitfield : Type 0 where
  pub size : ℕ
  pub field : Field
  pub local_field : List Word

-- ni_bitfield_init, and ni_bitfield_destroy
abbrev pub init : Bitfield
init = record { size = 0; field = nowhere; local_field = replicate 4 zero_word }

unfoldable pub words_at : Field → List Word → List Word
words_at nowhere own = []
words_at local own = own
words_at (heap ws) own = ws

abbrev pub words : Bitfield → List Word
words bf = words_at bf.field bf.local_field

-- sizeof(__local_field): bytes, which the source takes for words.
abbrev pub local_words : ℕ
local_words = 16

-- What memcpy of `n` bytes copies into words that are 0: on a little-endian machine, the lowest bits of
-- the word that it does not copy whole.
unfoldable pub copied : ℕ → List Word → List Word
copied n ws =
    take (n / 4) ws
    ++ (take (n % 4 * 8) (get_or ws (n / 4) zero_word) ++ replicate (32 - n % 4 * 8) false) ∷ []

-- __ni_bitfield_grow; xcalloc gives words that are 0.
unfoldable pub grow : Bitfield → ℕ → Bitfield
unfolding words_at copied
grow bf nbits =
    let nwords = (nbits + 31) / 32 in
    if leb bf.size nwords
    then if leb nwords local_words
      then record bf { size = local_words; field = local; local_field = replicate 4 zero_word }
      else record bf {
        size = nwords;
        field = heap (take nwords (copied bf.size (words bf) ++ replicate nwords zero_word));
      }
    else bf

unfoldable pub put_words : Bitfield → List Word → Bitfield
put_words bf ws = elim bf.field [
  | nowhere ↦ bf
  | local ↦ record bf { local_field = ws }
  | heap old ↦ record bf { field = heap ws }
]

-- A write of the word of a bit; `none` outside of the memory.
unfoldable pub update : Bitfield → ℕ → (Word → Word) → Option Bitfield
unfolding words_at put_words
update bf bit f =
    if ltb (bit / 32) (length (words bf))
    then some
        (put_words bf (set (words bf) (bit / 32) (f (get_or (words bf) (bit / 32) zero_word))))
    else none

-- ni_bitfield_setbit assigns the word: = (1 << (bit % 32)).
unfoldable pub setbit : Bitfield → ℕ → Option Bitfield
unfolding grow update
setbit bf bit = update (grow bf bit) bit (λ w. set zero_word (bit % 32) true)

-- ni_bitfield_clearbit: &= ~(1 << (bit % 32)).
unfoldable pub clearbit : Bitfield → ℕ → Option Bitfield
unfolding grow update
clearbit bf bit = update (grow bf bit) bit (λ w. set w (bit % 32) false)

-- ni_bitfield_testbit; `none` is a read outside of the memory.
unfoldable pub testbit : Bitfield → ℕ → Option Bool
unfolding words_at
testbit bf bit =
    if leb bf.size (bit / 32)
    then some false
    else if ltb (bit / 32) (length (words bf))
    then some (get_or (get_or (words bf) (bit / 32) zero_word) (bit % 32) false)
    else none
