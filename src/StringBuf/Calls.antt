-- ===== src/StringBuf/Calls.antt =====
-- Sequences of calls of ni_stringbuf_*, with a string as the specification.
use testbus.Base.{
  ℕ, zero, suc, ◌+◌, ◌≤◌, ◌<◌, ◌≡◌, refl, List, [], ◌∷◌, ◌++◌, Option, none, some, true, false,
  arith, length, take, ltb, Bool-cases, inl, inr, All-append, ap, sym, ◌∙◌, some-injective,
}
use testbus.StringBuf.{StringBuf, clear, realloc, put, truncate, contains, trim_head, move}
use testbus.StringBuf.Memory.{Holds, unset, holds, holding}
use testbus.StringBuf.Refine.{Gives, gives, put_lem, truncate_lem, trim_head_lem, trimmed, IsString}

-- ni_stringbuf_puts (and putc), truncate, trim_head and clear.
pub data Op : Type 0 where
  puts : List ℕ → Op
  truncates : ℕ → Op
  trims : List ℕ → Op
  clears : Op

unfoldable pub step : StringBuf → Op → Option StringBuf
step sb (puts s) = put sb s
step sb (truncates n) = truncate sb n
step sb (trims reject) = trim_head sb reject
step sb clears = some (clear sb)

unfoldable pub run : StringBuf → List Op → Option StringBuf
run sb [] = some sb
run sb (o ∷ os) = elim (step sb o) [ none ↦ none | some sb' ↦ run sb' os ]

unfoldable pub spec_step : List ℕ → Op → List ℕ
spec_step xs (puts s) = xs ++ s
spec_step xs (truncates n) = take n xs
spec_step xs (trims reject) = trimmed reject xs
spec_step xs clears = []

unfoldable pub spec_run : List ℕ → List Op → List ℕ
spec_run xs [] = xs
spec_run xs (o ∷ os) = spec_run (spec_step xs o) os

-- What is put is a C string, and a string is not truncated behind its end.
abbrev pub IsCall : List ℕ → Op → Type 0
IsCall xs (puts s) = IsString s
IsCall xs (truncates n) = n ≤ length xs
IsCall xs (trims reject) = Unit {0}
IsCall xs clears = Unit {0}

unfoldable pub AreCalls : List ℕ → List Op → Type 0
AreCalls xs [] = Unit {0}
AreCalls xs (o ∷ os) = IsCall xs o × AreCalls (spec_step xs o) os

IsString-take : (n : ℕ) (xs : List ℕ) → IsString xs → IsString (take n xs)
IsString-take zero xs s = tt
IsString-take (suc n) [] s = tt
IsString-take (suc n) (x ∷ xs) s = (s.0, IsString-take n xs s.1)

IsString-trimmed : (reject xs : List ℕ) → IsString xs → IsString (trimmed reject xs)
IsString-trimmed reject [] s = tt
IsString-trimmed reject (c ∷ cs) s = elim (Bool-cases (contains reject c)) [
  | inl bad ↦ rw bad (IsString-trimmed reject cs s.1)
  | inr good ↦ rw good s
]

IsString-step : (xs : List ℕ) (o : Op) → IsString xs → IsCall xs o → IsString (spec_step xs o)
unfolding spec_step
IsString-step xs (puts s) v c = All-append (λ c. 0 < c) xs s v c
IsString-step xs (truncates n) v c = IsString-take n xs v
IsString-step xs (trims reject) v c = IsString-trimmed reject xs v
IsString-step xs clears v c = tt

data Holding (xs : List ℕ) (r : Option StringBuf) : Type 0 where
  holding_some : (sb : StringBuf) → r ≡ some sb → Holds sb xs → Holding xs r

Gives-Holding : (xs : List ℕ) (r : Option StringBuf) → Gives xs r → Holding xs r
Gives-Holding xs r (gives rest e) = holding_some (holding xs (0 ∷ rest)) e (holds rest refl)

Holds-clear : (sb : StringBuf) (xs : List ℕ) → Holds sb xs → Holds (clear sb) []
unfolding clear
Holds-clear sb xs (unset e f) = unset (ap clear e) refl
Holds-clear sb xs (holds rest e) = unset (ap clear e) refl

step_lem :
    (sb : StringBuf) (xs : List ℕ) (o : Op)
    → Holds sb xs
    → IsString xs
    → IsCall xs o
    → Holding (spec_step xs o) (step sb o)
unfolding step spec_step
step_lem sb xs (puts s) h v c = Gives-Holding _ _ (put_lem sb xs s h)
step_lem sb xs (truncates n) h v c = Gives-Holding _ _ (truncate_lem sb xs n h c)
step_lem sb xs (trims reject) h v c = Gives-Holding _ _ (trim_head_lem sb xs reject h v)
step_lem sb xs clears h v c = holding_some (clear sb) refl (Holds-clear sb xs h)

-- A buffer that holds a string is that string under every sequence of ni_stringbuf_puts, truncate,
-- trim_head and clear: no call fails or writes outside of its memory, and at the end the buffer holds,
-- with its terminating 0, what the same edits make of the string. Only C strings are put, and the
-- string is not truncated behind its end.
pub stringbuf_refines :
    (os : List Op) (sb : StringBuf) (xs : List ℕ)
    → Holds sb xs
    → IsString xs
    → AreCalls xs os
    → (sb' : StringBuf) × (run sb os ≡ some sb') × Holds sb' (spec_run xs os)
unfolding run spec_run AreCalls
stringbuf_refines [] sb xs h v c = (sb, refl, h)
stringbuf_refines (o ∷ os) sb xs h v c = elim (step_lem sb xs o h v c.0) [
  | holding_some sb' e h' ↦
      let (sb'', same, h'') =
        stringbuf_refines os sb' (spec_step xs o) h' (IsString-step xs o v c.0) c.1 in
      (sb'', rw (run, e) same, h'')
]

-- ni_stringbuf_move leaves the source its size, but no memory: the next call that puts bytes for which
-- the size is enough writes through NULL.
pub put-move :
    (dest src d s : StringBuf) (bytes : List ℕ)
    → src.dynamic ≡ true
    → dest.dynamic ≡ true
    → length bytes < src.size
    → move dest src ≡ some (d, s)
    → put s bytes ≡ none
unfolding move put realloc
put-move dest src d s bytes e f h m =
    let left : StringBuf = record src { string = none; len = 0 } in
    let moved : move dest src ≡ some (src, left) = rw (move, e, f) refl in
    let fits : ltb src.size (0 + length bytes + 1) ≡ false = ground (arith, h) in
    let fails : put left bytes ≡ none = rw (put, fits) refl in
    ap (λ r. put r.1 bytes) (some-injective (sym m ∙ moved)) ∙ fails
