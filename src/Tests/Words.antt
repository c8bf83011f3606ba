-- ===== src/Tests/Words.antt =====
-- String buffers and quoting of dborb/util.c at small inputs.
use testbus.Base.{ℕ, ◌≡◌, refl, List, [], ◌∷◌, ◌++◌, none, some, true, arith}
use testbus.StringBuf.{StringBuf, init, realloc, put, move, strspn, strlen, trim_from, trim_tail}
use testbus.StringBuf.Memory.{Holds, unset}
use testbus.StringBuf.Calls.{
  Op, truncates, trims, clears, step, run, spec_step, spec_run, AreCalls, stringbuf_refines,
  put-move,
}
use testbus.StringBuf.Calls
use testbus.Quote.{quote, unquote, escape, strcspn, scan, kind, word}
use testbus.Quote.Roundtrip.{more, unquote-quote}

-- "  ab" is put, its spaces are trimmed, and it is cut to "a".
abbrev calls : List Op
calls = Calls.puts (32 ∷ 32 ∷ 97 ∷ 98 ∷ []) ∷ trims (32 ∷ []) ∷ truncates 1 ∷ []

calls-AreCalls : AreCalls [] calls
unfolding AreCalls spec_step
calls-AreCalls =
    ((omega arith, (omega arith, (omega arith, (omega arith, tt)))), (tt, (omega arith, tt)))

stringbuf_refines_example :
    (sb' : StringBuf) × (run init calls ≡ some sb') × Holds sb' (spec_run [] calls)
stringbuf_refines_example = stringbuf_refines calls init [] (unset refl refl) tt calls-AreCalls

spec-calls : spec_run [] calls ≡ 97 ∷ []
unfolding spec_run spec_step
spec-calls = refl

abbrev sixty_four : StringBuf
sixty_four = record { size = 64; len = 0; string = some []; dynamic = true }

move-sixty_four : move init sixty_four ≡ some (sixty_four, record sixty_four { string = none })
unfolding move
move-sixty_four = refl

put-move_example : put (record sixty_four { string = none }) (97 ∷ []) ≡ none
put-move_example =
    put-move init sixty_four sixty_four (record sixty_four { string = none }) (97 ∷ []) refl refl
      (omega arith) move-sixty_four

-- it's, with a blank as the separator and a blank behind it.
abbrev its : List ℕ
its = 105 ∷ 116 ∷ 39 ∷ 115 ∷ []

quote-its : quote its (some (32 ∷ [])) ≡ 34 ∷ 105 ∷ 116 ∷ 92 ∷ 39 ∷ 115 ∷ 34 ∷ []
unfolding quote escape strcspn
quote-its = refl

unquote-quote_example :
    unquote (quote its (some (32 ∷ [])) ++ 32 ∷ 120 ∷ []) (some (32 ∷ []))
    ≡ word (some its) (120 ∷ [])
unquote-quote_example =
    unquote-quote (some (32 ∷ [])) its (32 ∷ 120 ∷ []) (120 ∷ []) (omega arith) refl
      (more 32 (120 ∷ []) refl refl)

-- An empty word in quotes is NULL, as if the quotes were not closed.
unquote-empty : unquote (34 ∷ 34 ∷ []) none ≡ word none []
unfolding unquote scan kind strspn
unquote-empty = refl

trim_tail-blanks :
    trim_tail
      (record {
        size = 8;
        len = 3;
        string = some (97 ∷ 32 ∷ 32 ∷ 0 ∷ 0 ∷ 0 ∷ 0 ∷ 0 ∷ []);
        dynamic = true;
      })
      (32 ∷ [])
    ≡ some (record {
      size = 8;
      len = 1;
      string = some (97 ∷ 0 ∷ 32 ∷ 0 ∷ 0 ∷ 0 ∷ 0 ∷ 0 ∷ []);
      dynamic = true;
    })
unfolding trim_tail realloc trim_from strlen
trim_tail-blanks = refl
