-- ===== src/StringBuf/Refine.antt =====
-- A string buffer is a string, for every sequence of calls.
use testbus.Base.{
  ℕ, zero, suc, ◌+◌, ◌-◌, ◌≤◌, ◌<◌, ◌≡◌, refl, List, [], ◌∷◌, ◌++◌, append_assoc, Option, some,
  true, false, arith, length, length-append, set, take, take-length, drop, length-take, length-drop,
  length-set, if◌then◌else◌, ◌==◌, ==_iff, All, Bool-cases, inl, inr, ap, sym, ◌∙◌,
}
use testbus.Buffer.{blit}
use testbus.Buffer.Bytes.{length-blit}
use testbus.StringBuf.{StringBuf, realloc, put, truncate, contains, strspn, trim_head}
use testbus.StringBuf.Memory.{
  Holds, unset, holds, holding, HasRoom, has_room, realloc-HasRoom, blit-front, blit-append,
  set-append,
}

-- The call succeeds, and the buffer holds the string then.
pub data Gives (xs : List ℕ) (r : Option StringBuf) : Type 0 where
  gives : (rest : List ℕ) → r ≡ some (holding xs (0 ∷ rest)) → Gives xs r

put_memory :
    (xs room bytes : List ℕ)
    → length bytes < length room
    → set (blit (xs ++ room) (length xs) bytes) (length xs + length bytes) 0
      ≡ (xs ++ bytes) ++ 0 ∷ drop 1 (drop (length bytes) room)
put_memory xs room bytes h =
    ap (λ mem. set mem (length xs + length bytes) 0)
      (blit-append xs room bytes
        ∙ ap (λ ys. xs ++ ys) (blit-front room bytes (omega arith))
        ∙ sym (append_assoc xs bytes (drop (length bytes) room)))
    ∙ set-append (xs ++ bytes) (drop (length bytes) room) (length xs + length bytes) 0
        (omega (arith, length-append xs bytes)) (omega (arith, length-drop (length bytes) room))

-- A buffer that holds `ys`, given piece by piece.
holding_path :
    (ys rest mem : List ℕ) (size len : ℕ)
    → mem ≡ ys ++ 0 ∷ rest
    → size ≡ length mem
    → len ≡ length ys
    → record { size = size; len = len; string = some mem; dynamic = true } ≡ holding ys (0 ∷ rest)
holding_path ys rest mem size len e f g =
    ap (λ s. record { size = s; len = len; string = some mem; dynamic = true }) (f ∙ ap length e)
    ∙ ap
        (λ l. record { size = length (ys ++ 0 ∷ rest); len = l; string = some mem; dynamic = true })
        g
    ∙ ap
        (λ m. record {
          size = length (ys ++ 0 ∷ rest);
          len = length ys;
          string = some m;
          dynamic = true;
        })
        e

-- __ni_stringbuf_put appends.
pub put_lem :
    (sb : StringBuf) (xs bytes : List ℕ) → Holds sb xs → Gives (xs ++ bytes) (put sb bytes)
unfolding put
put_lem sb xs bytes h = go (realloc-HasRoom sb xs (length bytes) h)
  where
    size :
        (room : List ℕ)
        → length (xs ++ room)
          ≡ length (set (blit (xs ++ room) (length xs) bytes) (length xs + length bytes) 0)
    size room = sym (
        length-set (blit (xs ++ room) (length xs) bytes) _ 0
        ∙ length-blit (xs ++ room) (length xs) bytes)

    go : HasRoom xs (length bytes) (realloc sb (length bytes)) → Gives (xs ++ bytes) (put sb bytes)
    go (has_room room more e) = gives (drop 1 (drop (length bytes) room)) (
        rw (put, e) refl
        ∙ ap some (
            holding_path (xs ++ bytes) (drop 1 (drop (length bytes) room))
              (set (blit (xs ++ room) (length xs) bytes) (length xs + length bytes) 0)
              (length (xs ++ room)) (length xs + length bytes) (put_memory xs room bytes more)
              (size room) (sym (length-append xs bytes))))

-- ni_stringbuf_truncate, to no more than the string's length.
pub truncate_lem :
    (sb : StringBuf) (xs : List ℕ) (at : ℕ)
    → Holds sb xs
    → at ≤ length xs
    → Gives (take at xs) (truncate sb at)
unfolding truncate
truncate_lem sb xs at h le = go (realloc-HasRoom sb xs at h)
  where
    cut :
        (xs room : List ℕ) (n : ℕ)
        → n ≤ length xs
        → 0 < length room
        → set (xs ++ room) n 0 ≡ take n xs ++ 0 ∷ drop 1 (drop n (xs ++ room))
    cut [] [] n e h = absurd (omega arith)
    cut [] (r ∷ rs) zero e h = refl
    cut [] (r ∷ rs) (suc n) e h = absurd (omega arith)
    cut (x ∷ xs) room zero e h = refl
    cut (x ∷ xs) room (suc n) e h = ap (◌∷◌ x) (cut xs room n (omega arith) h)

    go : HasRoom xs at (realloc sb at) → Gives (take at xs) (truncate sb at)
    go (has_room room more e) = gives (drop 1 (drop at (xs ++ room))) (
        rw (truncate, e) refl
        ∙ ap some (
            holding_path (take at xs) (drop 1 (drop at (xs ++ room))) (set (xs ++ room) at 0)
              (length (xs ++ room)) at (cut xs room at le (omega (arith, more)))
              (sym (length-set (xs ++ room) at 0)) (omega (arith, length-take at xs))))

-- A string has no 0 in it.
abbrev pub IsString : List ℕ → Type 0
IsString xs = All (λ c. 0 < c) xs

-- ni_stringbuf_trim_head: what is left of a string without the bytes at its front that are rejected.
abbrev pub trimmed : List ℕ → List ℕ → List ℕ
trimmed reject [] = []
trimmed reject (c ∷ cs) = if contains reject c then trimmed reject cs else c ∷ cs

strspn_lem :
    (reject xs rest : List ℕ)
    → IsString xs
    → (drop (strspn (xs ++ 0 ∷ rest) reject) xs ≡ trimmed reject xs)
      × (strspn (xs ++ 0 ∷ rest) reject ≤ length xs)
unfolding strspn
strspn_lem reject [] rest s = (refl, omega arith)
strspn_lem reject (c ∷ cs) rest s =
    let (rest_same, few) = strspn_lem reject cs rest s.1 in
    let nonzero : (c == 0) ≡ false = ground (arith, s.0) in
    elim (Bool-cases (contains reject c)) [
      | inl bad ↦ rw (nonzero, bad) (rest_same, omega (arith, few))
      | inr good ↦ rw (nonzero, good) (refl, omega arith)
    ]

len_lem : (sb : StringBuf) (xs : List ℕ) → Holds sb xs → sb.len ≡ length xs
len_lem sb xs (unset e f) = ap (λ sb. sb.len) e ∙ sym (ap length f)
len_lem sb xs (holds rest e) = ap (λ sb. sb.len) e

-- The bytes from `n` on, with the 0, move to the front.
shift_memory :
    (xs rest : List ℕ) (n m : ℕ)
    → n + m ≡ length xs + 1
    → n ≤ length xs
    → take m (drop n (xs ++ 0 ∷ rest)) ≡ drop n xs ++ 0 ∷ []
shift_memory [] rest zero zero e h = absurd (omega arith)
shift_memory [] rest zero (suc zero) e h = refl
shift_memory [] rest zero (suc (suc m)) e h = absurd (omega arith)
shift_memory [] rest (suc n) m e h = absurd (omega arith)
shift_memory (x ∷ xs) rest zero zero e h = absurd (omega arith)
shift_memory (x ∷ xs) rest zero (suc m) e h =
    ap (◌∷◌ x) (shift_memory xs rest zero m (omega arith) (omega arith))
shift_memory (x ∷ xs) rest (suc n) m e h = shift_memory xs rest n m (omega arith) (omega arith)

-- ni_stringbuf_trim_head
pub trim_head_lem :
    (sb : StringBuf) (xs reject : List ℕ)
    → Holds sb xs
    → IsString xs
    → Gives (trimmed reject xs) (trim_head sb reject)
unfolding trim_head
trim_head_lem sb xs reject h s = go (truncate_lem sb xs sb.len h (omega (arith, len_lem sb xs h)))
  where
    go :
        Gives (take sb.len xs) (truncate sb sb.len)
        → Gives (trimmed reject xs) (trim_head sb reject)
    go (gives rest e) =
        let same : take sb.len xs ≡ xs = ap (λ n. take n xs) (len_lem sb xs h) ∙ take-length xs in
        let cut : truncate sb sb.len ≡ some (holding xs (0 ∷ rest)) =
          e ∙ ap (λ ys. some (holding ys (0 ∷ rest))) same in
        let (left, few) = strspn_lem reject xs rest s in
        let trim = strspn (xs ++ 0 ∷ rest) reject in
        elim (Bool-cases (trim == 0)) [
          | inl none_bad ↦ gives rest (
              rw (trim_head, cut, none_bad)
                (ap (λ ys. some (holding ys (0 ∷ rest)))
                  (sym (ap (λ n. drop n xs) ((==_iff trim 0).0 none_bad)) ∙ left)))
          | inr some_bad ↦
              let mem = xs ++ 0 ∷ rest in
              let len = length xs - trim in
              let moved = take (len + 1) (drop trim mem) ++ drop (len + 1) mem in
              let shifted : moved ≡ trimmed reject xs ++ 0 ∷ drop (len + 1) mem =
                ap (λ ys. ys ++ drop (len + 1) mem)
                  (shift_memory xs rest trim (len + 1) (omega (arith, few)) few)
                ∙ append_assoc (drop trim xs) (0 ∷ []) (drop (len + 1) mem)
                ∙ ap (λ ys. ys ++ 0 ∷ drop (len + 1) mem) left in
              let size : length mem ≡ length moved = omega (
                arith,
                length-append xs (0 ∷ rest),
                length-append (take (len + 1) (drop trim mem)) (drop (len + 1) mem),
                length-take (len + 1) (drop trim mem),
                length-drop trim mem,
                length-drop (len + 1) mem,
                few,
              ) in
              gives (drop (len + 1) mem) (
                rw (trim_head, cut, some_bad) refl
                ∙ ap some (
                    holding_path (trimmed reject xs) (drop (len + 1) mem) moved (length mem) len
                      shifted size (omega (arith, sym (ap length left), length-drop trim xs))))
        ]
