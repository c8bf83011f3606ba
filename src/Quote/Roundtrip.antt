-- ===== src/Quote/Roundtrip.antt =====
-- ni_unquote reads back what ni_quote writes.
use testbus.Base.{
  ℕ, ◌<◌, ◌≡◌, refl, List, [], ◌∷◌, ◌++◌, append-nil, append_assoc, Option, none, some, true, false,
  ◌&&◌, ◌||◌, arith, length, drop, ◌==◌, All, Bool-cases, inl, inr, ap, sym, ◌∙◌,
}
use testbus.StringBuf.{contains, strspn}
use testbus.Quote.{
  double_quote, single_quote, backslash, strcspn, escape, in_set, word_length, quote, plain, double,
  other, kind, word, put_byte, scan, skipped, unquote,
}

abbrev put_all : Option (List ℕ) → List ℕ → Option (List ℕ)
put_all buf [] = buf
put_all buf (c ∷ cs) = put_all (put_byte buf c) cs

put_all-some : (xs cs : List ℕ) → put_all (some xs) cs ≡ some (xs ++ cs)
unfolding put_byte
put_all-some xs [] = ap some (sym (append-nil xs))
put_all-some xs (c ∷ cs) = put_all-some (xs ++ c ∷ []) cs ∙ ap some (append_assoc xs (c ∷ []) cs)

put_all-none : (c : ℕ) (cs : List ℕ) → put_all none (c ∷ cs) ≡ some (c ∷ cs)
unfolding put_byte
put_all-none c cs = put_all-some (c ∷ []) cs

scan_double :
    (sepa : Option (List ℕ)) (buf : Option (List ℕ)) (s t : List ℕ)
    → scan sepa double buf (escape s ++ double_quote ∷ t) ≡ scan sepa plain (put_all buf s) t
unfolding scan kind escape
scan_double sepa buf [] t = refl
scan_double sepa buf (c ∷ cs) t =
    elim (Bool-cases (((c == double_quote) || (c == single_quote)) || (c == backslash))) [
      | inl special ↦ rw special (scan_double sepa (put_byte buf c) cs t)
      | inr usual ↦
          let no_quote : (c == double_quote) ≡ false = ground (arith, usual) in
          let no_escape : (c == backslash) ≡ false = ground (arith, usual) in
          rw (usual, scan, kind, no_quote, no_escape) (scan_double sepa (put_byte buf c) cs t)
    ]

-- Outside of quotes, up to a separator or a quote.
scan_plain :
    (sepa : Option (List ℕ)) (buf : Option (List ℕ)) (s t : List ℕ)
    → All (λ c. kind plain sepa c ≡ other) s
    → scan sepa plain buf (s ++ t) ≡ scan sepa plain (put_all buf s) t
unfolding scan
scan_plain sepa buf [] t h = refl
scan_plain sepa buf (c ∷ cs) t h = rw (scan, h.0) (scan_plain sepa (put_byte buf c) cs t h.1)

-- What stands behind a word: nothing, or a separator and the rest.
pub data Behind (sepa : Option (List ℕ)) (t : List ℕ) : List ℕ → Type 0 where
  nothing : t ≡ [] → Behind sepa t []
  more : (c : ℕ) (rest : List ℕ) → t ≡ c ∷ rest → in_set sepa c ≡ true → Behind sepa t rest

scan-Behind :
    (sepa : Option (List ℕ)) (buf : Option (List ℕ)) (t rest : List ℕ)
    → Behind sepa t rest
    → scan sepa plain buf t ≡ word buf rest
unfolding scan kind
scan-Behind sepa buf t _ (nothing e) = ap (scan sepa plain buf) e
scan-Behind sepa buf t _ (more c rest e h) =
    let ends : scan sepa plain buf (c ∷ rest) ≡ word buf rest = rw (scan, kind, h) refl in
    ap (scan sepa plain buf) e ∙ ends

-- A word that ni_quote leaves as it is has no byte with a meaning.
strcspn_all :
    (s reject : List ℕ) → strcspn s reject ≡ length s → All (λ c. contains reject c ≡ false) s
unfolding strcspn
strcspn_all [] reject h = tt
strcspn_all (c ∷ cs) reject h = elim (Bool-cases (contains reject c)) [
  | inl bad ↦ absurd (ground (arith, h, bad))
  | inr good ↦ (good, strcspn_all cs reject (ground (arith, h, good)))
]

others :
    (sepa : Option (List ℕ)) (s : List ℕ)
    → All (λ c. in_set sepa c ≡ false) s
    → All (λ c. contains (double_quote ∷ single_quote ∷ []) c ≡ false) s
    → All (λ c. kind plain sepa c ≡ other) s
unfolding kind
others sepa [] a b = tt
others sepa (c ∷ cs) a b =
    let no_double : (c == double_quote) ≡ false = ground (arith, b.0) in
    let no_single : (c == single_quote) ≡ false = ground (arith, b.0) in
    (rw (kind, a.0, no_double, no_single) refl, others sepa cs a.1 b.1)

not_in_set :
    (sepa : Option (List ℕ)) (s : List ℕ)
    → word_length sepa s ≡ length s
    → All (λ c. in_set sepa c ≡ false) s
not_in_set none [] h = tt
not_in_set none (c ∷ cs) h = (refl, not_in_set none cs refl)
not_in_set (some sepa) s h = strcspn_all s sepa h

-- Nothing is skipped in front of a byte that is no separator.
skipped_none :
    (sepa : Option (List ℕ)) (c : ℕ) (cs : List ℕ)
    → in_set sepa c ≡ false
    → skipped (c ∷ cs) sepa ≡ 0
unfolding strspn
skipped_none none c cs h = refl
skipped_none (some sepa) c cs h = ground (arith, h)

unquote_front :
    (sepa : Option (List ℕ)) (c : ℕ) (cs : List ℕ)
    → in_set sepa c ≡ false
    → unquote (c ∷ cs) sepa ≡ scan sepa plain none (c ∷ cs)
unfolding unquote
unquote_front sepa c cs h =
    ap (λ n. scan sepa plain none (drop n (c ∷ cs))) (skipped_none sepa c cs h)

-- ni_unquote of what ni_quote made of a word that is not empty gives the word, if nothing or a
-- separator stands behind it, and leaves what follows the separator; a double quote is no separator.
pub unquote-quote :
    (sepa : Option (List ℕ)) (s t rest : List ℕ)
    → 0 < length s
    → in_set sepa double_quote ≡ false
    → Behind sepa t rest
    → unquote (quote s sepa ++ t) sepa ≡ word (some s) rest
unfolding quote scan kind
unquote-quote sepa [] t rest ne q b = absurd (omega arith)
unquote-quote sepa (c ∷ cs) t rest ne q b =
    let s = c ∷ cs in
    let marks = double_quote ∷ single_quote ∷ [] in
    elim (Bool-cases ((word_length sepa s == strcspn s marks) && (strcspn s marks == length s))) [
      | inl bare ↦
          let seps = not_in_set sepa s (ground (arith, bare)) in
          let marks_none = strcspn_all s marks (ground (arith, bare)) in
          let same : quote s sepa ≡ s = rw (quote, bare) refl in
          ap (λ q. unquote (q ++ t) sepa) same
          ∙ unquote_front sepa c (cs ++ t) seps.0
          ∙ scan_plain sepa none s t (others sepa s seps marks_none)
          ∙ ap (λ w. scan sepa plain w t) (put_all-none c cs)
          ∙ scan-Behind sepa (some s) t rest b
      | inr quoted ↦
          let same : quote s sepa ≡ double_quote ∷ escape s ++ double_quote ∷ [] =
            rw (quote, quoted) refl in
          let opened : scan sepa plain none (double_quote ∷ escape s ++ double_quote ∷ t)
              ≡ scan sepa double none (escape s ++ double_quote ∷ t) =
            rw (scan, kind, q) refl in
          ap (λ q. unquote (q ++ t) sepa) same
          ∙ unquote_front sepa double_quote ((escape s ++ double_quote ∷ []) ++ t) q
          ∙ ap (λ ys. scan sepa plain none (double_quote ∷ ys))
              (append_assoc (escape s) (double_quote ∷ []) t)
          ∙ opened
          ∙ scan_double sepa none s t
          ∙ ap (λ w. scan sepa plain w t) (put_all-none c cs)
          ∙ scan-Behind sepa (some s) t rest b
    ]
