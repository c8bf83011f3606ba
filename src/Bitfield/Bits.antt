-- ===== src/Bitfield/Bits.antt =====
-- What ni_bitfield_setbit and ni_bitfield_clearbit make of the bits, and where they write.
use testbus.Base.{
  ℕ, zero, suc, ◌+◌, ◌/◌, ◌%◌, ◌<◌, ◌≤◌, ◌≡◌, refl, ap, ◌∙◌, List, [], ◌∷◌, none, some, Bool, true,
  false, get_or, length, set, length-set, replicate, if◌then◌else◌, ◌==◌, ==_iff, ltb, leb, arith,
  Bool-cases, inl, inr,
}
use testbus.Bitfield.{
  Word, Bitfield, local, zero_word, words_at, grow, put_words, update, setbit, clearbit, testbit,
}

-- The bits below 128 in use, in the local words.
pub record IsLocal (bf : Bitfield) : Type 0 where
  pub sized : bf.size ≡ 16
  pub inside : bf.field ≡ local
  pub four : length bf.local_field ≡ 4

get_or-set {ℓ} :
    {A : Type ℓ} (xs : List A) (i j : ℕ) (v d : A)
    → i < length xs
    → get_or (set xs i v) j d ≡ (if i == j then v else get_or xs j d)
get_or-set [] i j v d h = absurd (omega arith)
get_or-set (x ∷ xs) zero zero v d h = refl
get_or-set (x ∷ xs) zero (suc j) v d h = ground arith
get_or-set (x ∷ xs) (suc i) zero v d h = ground arith
get_or-set (x ∷ xs) (suc i) (suc j) v d h = get_or-set xs i j v d (omega arith) ∙ ground arith

-- Clearing a place that is not there changes nothing that is read.
get_or-clear :
    (xs : List Bool) (i j : ℕ)
    → get_or (set xs i false) j false ≡ (if i == j then false else get_or xs j false)
get_or-clear [] i j = ground arith
get_or-clear (x ∷ xs) zero zero = refl
get_or-clear (x ∷ xs) zero (suc j) = ground arith
get_or-clear (x ∷ xs) (suc i) zero = ground arith
get_or-clear (x ∷ xs) (suc i) (suc j) = get_or-clear xs i j ∙ ground arith

-- In the local words nothing grows, and the word of the bit is written.
update-local :
    (bf : Bitfield) (bit : ℕ) (f : Word → Word)
    → IsLocal bf
    → bit < 128
    → update (grow bf bit) bit f
      ≡ some (record bf {
        local_field =
            set bf.local_field (bit / 32) (f (get_or bf.local_field (bit / 32) zero_word));
      })
unfolding grow update words_at put_words
update-local bf bit f l h =
    let fits : leb bf.size ((bit + 31) / 32) ≡ false = ground (arith, l.sized) in
    let within : ltb (bit / 32) (length bf.local_field) ≡ true = ground (arith, l.four) in
    rw (fits, l.inside, within) refl

-- What a test reads in the local words.
testbit-local :
    (bf : Bitfield) (b : ℕ)
    → IsLocal bf
    → b < 128
    → testbit bf b ≡ some (get_or (get_or bf.local_field (b / 32) zero_word) (b % 32) false)
unfolding testbit words_at
testbit-local bf b l h =
    let fits : leb bf.size (b / 32) ≡ false = ground (arith, l.sized) in
    let within : ltb (b / 32) (length bf.local_field) ≡ true = ground (arith, l.four) in
    rw (fits, l.inside, within) refl

-- The word of `b` behind a write of the word of `bit`.
word_after :
    (bf : Bitfield) (bit b : ℕ) (w : Word)
    → IsLocal bf
    → bit < 128
    → get_or (set bf.local_field (bit / 32) w) (b / 32) zero_word
      ≡ (if bit / 32 == b / 32 then w else get_or bf.local_field (b / 32) zero_word)
word_after bf bit b w l h =
    get_or-set bf.local_field (bit / 32) (b / 32) w zero_word (omega (arith, l.four))

IsLocal-set :
    (bf : Bitfield) (i : ℕ) (w : Word)
    → IsLocal bf
    → IsLocal (record bf { local_field = set bf.local_field i w })
IsLocal-set bf i w l = record {
  sized = l.sized;
  inside = l.inside;
  four = length-set bf.local_field i w ∙ l.four;
}

same_place : (bit b : ℕ) → bit / 32 ≡ b / 32 → (bit % 32 == b % 32) ≡ (bit == b)
same_place bit b h = ground (arith, h, ==_iff (bit % 32) (b % 32), ==_iff bit b)

set_read :
    (bf : Bitfield) (bit b : ℕ) (w : Word)
    → IsLocal bf
    → bit < 128
    → b < 128
    → testbit (record bf { local_field = set bf.local_field (bit / 32) w }) b
      ≡ (if bit / 32 == b / 32 then some (get_or w (b % 32) false) else testbit bf b)
set_read bf bit b w l h k = elim (Bool-cases (bit / 32 == b / 32)) [
  | inl e ↦
      let word : get_or (set bf.local_field (bit / 32) w) (b / 32) zero_word ≡ w =
        word_after bf bit b w l h ∙ ground (arith, e) in
      testbit-local _ b (IsLocal-set bf (bit / 32) w l) k
      ∙ ap (λ x. some (get_or x (b % 32) false)) word
      ∙ ground (arith, e)
  | inr e ↦
      let old = get_or bf.local_field (b / 32) zero_word in
      let word : get_or (set bf.local_field (bit / 32) w) (b / 32) zero_word ≡ old =
        word_after bf bit b w l h ∙ ground (arith, e) in
      testbit-local _ b (IsLocal-set bf (bit / 32) w l) k
      ∙ ap (λ x. some (get_or x (b % 32) false)) word
      ∙ ground (arith, e, testbit-local bf b l k)
]

get_or-zeros : (n j : ℕ) → get_or (replicate n false) j false ≡ false
get_or-zeros zero j = refl
get_or-zeros (suc n) zero = refl
get_or-zeros (suc n) (suc j) = get_or-zeros n j

set_bit : (k j : ℕ) → k < 32 → get_or (set zero_word k true) j false ≡ (k == j)
set_bit k j h = get_or-set zero_word k j true false h ∙ ground (arith, get_or-zeros 32 j)

-- Among the first 128 bits ni_bitfield_clearbit clears its bit and no other; ni_bitfield_setbit sets its
-- bit, and clears the other bits of the same 32. Neither writes outside of the local words.
pub bits_lem :
    (bf : Bitfield) (bit b : ℕ)
    → IsLocal bf
    → bit < 128
    → b < 128
    → (with_bit without : Bitfield) × (setbit bf bit ≡ some with_bit)
      × (clearbit bf bit ≡ some without)
      × IsLocal with_bit
      × IsLocal without
      × (testbit with_bit b ≡ (if bit / 32 == b / 32 then some (bit == b) else testbit bf b))
      × (testbit without b ≡ (if bit == b then some false else testbit bf b))
unfolding setbit clearbit
bits_lem bf bit b l h k =
    let w = set zero_word (bit % 32) true in
    let v = set (get_or bf.local_field (bit / 32) zero_word) (bit % 32) false in
    (
      record bf { local_field = set bf.local_field (bit / 32) w },
      record bf { local_field = set bf.local_field (bit / 32) v },
      update-local bf bit (λ x. set zero_word (bit % 32) true) l h,
      update-local bf bit (λ x. set x (bit % 32) false) l h,
      IsLocal-set bf (bit / 32) w l,
      IsLocal-set bf (bit / 32) v l,
      set_read bf bit b w l h k
          ∙ ground (
            arith,
            set_bit (bit % 32) (b % 32) (omega arith),
            same_place bit b,
            ==_iff (bit / 32) (b / 32),
          ),
      set_read bf bit b v l h k
          ∙ ground (
            arith,
            get_or-clear (get_or bf.local_field (bit / 32) zero_word) (bit % 32) (b % 32),
            same_place bit b,
            testbit-local bf b l k,
            ==_iff (bit / 32) (b / 32),
            ==_iff bit b,
          ),
    )

grow-IsLocal : (bf : Bitfield) (bit : ℕ) → IsLocal bf → bit < 512 → IsLocal (grow bf bit)
unfolding grow
grow-IsLocal bf bit l h = elim (Bool-cases (leb bf.size ((bit + 31) / 32))) [
  | inl e ↦
      let small : leb ((bit + 31) / 32) 16 ≡ true = ground arith in
      rw (e, small) (record { sized = refl; inside = refl; four = refl })
  | inr e ↦ rw (e) l
]

update_outside :
    (bf : Bitfield) (bit : ℕ) (f : Word → Word) → IsLocal bf → 128 ≤ bit → update bf bit f ≡ none
unfolding update words_at
update_outside bf bit f l h =
    let beyond : ltb (bit / 32) (length bf.local_field) ≡ false = ground (arith, l.four) in
    rw (l.inside, beyond) refl

-- From 128 to 511 the bits are behind the local words, but nothing grows: setting, clearing and testing
-- such a bit are accesses outside of the structure's memory.
pub outside_lem :
    (bf : Bitfield) (bit : ℕ)
    → IsLocal bf
    → 128 ≤ bit
    → bit < 512
    → (setbit bf bit ≡ none) × (clearbit bf bit ≡ none) × (testbit bf bit ≡ none)
unfolding setbit clearbit testbit words_at
outside_lem bf bit l h k =
    let grown = grow-IsLocal bf bit l k in
    let counted : leb bf.size (bit / 32) ≡ false = ground (arith, l.sized) in
    let beyond : ltb (bit / 32) (length bf.local_field) ≡ false = ground (arith, l.four) in
    (
      update_outside (grow bf bit) bit (λ w. set zero_word (bit % 32) true) grown h,
      update_outside (grow bf bit) bit (λ w. set w (bit % 32) false) grown h,
      rw (counted, l.inside, beyond) refl,
    )
