-- ===== src/Quote.antt =====
-- dborb/util.c, ni_quote and ni_unquote: words with separators in them, quoted as in a shell.
pub mod Roundtrip
use testbus.Base.{
  ℕ, zero, suc, ◌+◌, List, [], ◌∷◌, ◌++◌, Option, none, some, Bool, true, false, not, ◌&&◌, ◌||◌,
  length, drop, if◌then◌else◌, ◌==◌,
}
use testbus.StringBuf.{contains, strspn}

abbrev pub double_quote : ℕ
double_quote = 34

abbrev pub single_quote : ℕ
single_quote = 39

abbrev pub backslash : ℕ
backslash = 92

-- strcspn
unfoldable pub strcspn : List ℕ → List ℕ → ℕ
strcspn [] reject = 0
strcspn (c ∷ cs) reject = let rest = strcspn cs reject in if contains reject c then 0 else suc rest

-- The loop of ni_quote.
unfoldable pub escape : List ℕ → List ℕ
escape [] = []
escape (c ∷ cs) =
    let rest = c ∷ escape cs in
    if ((c == double_quote) || (c == single_quote)) || (c == backslash)
    then backslash ∷ rest
    else rest

abbrev pub in_set : Option (List ℕ) → ℕ → Bool
in_set none c = false
in_set (some sepa) c = contains sepa c

abbrev pub word_length : Option (List ℕ) → List ℕ → ℕ
word_length none s = length s
word_length (some sepa) s = strcspn s sepa

-- ni_quote; `none` is a NULL separator set.
unfoldable pub quote : List ℕ → Option (List ℕ) → List ℕ
unfolding escape strcspn
quote s sepa =
    let m = word_length sepa s in
    let n = strcspn s (double_quote ∷ single_quote ∷ []) in
    if (m == n) && (n == length s) then s else double_quote ∷ escape s ++ double_quote ∷ []

-- Where the loop of ni_unquote is: outside of quotes, in double quotes, there behind a backslash, or in
-- single quotes.
pub data Mode : Type 0 where
  plain : Mode
  double : Mode
  escaped : Mode
  single : Mode

-- What a byte is to it.
pub data Kind : Type 0 where
  separator : Kind
  double_mark : Kind
  single_mark : Kind
  escape_mark : Kind
  other : Kind

unfoldable pub kind : Mode → Option (List ℕ) → ℕ → Kind
kind plain sepa c =
    if in_set sepa c
    then separator
    else if c == double_quote
    then double_mark
    else if c == single_quote
    then single_mark
    else other
kind double sepa c =
    if c == double_quote then double_mark else if c == backslash then escape_mark else other
kind escaped sepa c = other
kind single sepa c = if c == single_quote then single_mark else other

-- `failed`, or the string buffer's string, NULL if nothing was put in it, and `*stringp`.
pub data Unquoted : Type 0 where
  failed : Unquoted
  word : Option (List ℕ) → List ℕ → Unquoted

unfoldable pub put_byte : Option (List ℕ) → ℕ → Option (List ℕ)
put_byte none c = some (c ∷ [])
put_byte (some cs) c = some (cs ++ c ∷ [])

-- The loops of ni_unquote.
unfoldable pub scan : Option (List ℕ) → Mode → Option (List ℕ) → List ℕ → Unquoted
unfolding put_byte
scan sepa plain buf [] = word buf []
scan sepa _ buf [] = failed
scan sepa plain buf (c ∷ cs) = elim (kind plain sepa c) [
  | separator ↦ word buf cs
  | double_mark ↦ scan sepa double buf cs
  | single_mark ↦ scan sepa single buf cs
  | _ ↦ scan sepa plain (put_byte buf c) cs
]
scan sepa double buf (c ∷ cs) = elim (kind double sepa c) [
  | double_mark ↦ scan sepa plain buf cs
  | escape_mark ↦ scan sepa escaped buf cs
  | _ ↦ scan sepa double (put_byte buf c) cs
]
scan sepa escaped buf (c ∷ cs) = scan sepa double (put_byte buf c) cs
scan sepa single buf (c ∷ cs) = elim (kind single sepa c) [
  | single_mark ↦ scan sepa plain buf cs
  | _ ↦ scan sepa single (put_byte buf c) cs
]

abbrev pub skipped : List ℕ → Option (List ℕ) → ℕ
skipped src none = 0
skipped src (some sepa) = strspn src sepa

-- ni_unquote
unfoldable pub unquote : List ℕ → Option (List ℕ) → Unquoted
unfolding scan strspn
unquote src sepa = scan sepa plain none (drop (skipped src sepa) src)
