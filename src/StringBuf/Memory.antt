-- ===== src/StringBuf/Memory.antt =====
-- The memory of a string buffer: the string, and room that starts with its terminating 0.
use testbus.Base.{
  ℕ, zero, suc, ◌+◌, ◌-◌, ◌*◌, ◌/◌, ◌≤◌, ◌<◌, ◌≡◌, refl, List, [], ◌∷◌, ◌++◌, Option, some, true,
  arith, length, length-append, length-replicate, set, take, take-length-append, drop, replicate,
  ltb, Bool-cases, inl, inr, ap, sym, ◌∙◌, subst,
}
use testbus.Buffer.{blit}
use testbus.StringBuf.{StringBuf, init, new_size, cleared, realloc, chunk}

-- The memory that holds `xs` with `room` behind it.
abbrev pub holding : List ℕ → List ℕ → StringBuf
holding xs room = record {
  size = length (xs ++ room);
  len = length xs;
  string = some (xs ++ room);
  dynamic = true;
}

-- A buffer without memory, or with a terminated string.
pub data Holds (sb : StringBuf) (xs : List ℕ) : Type 0 where
  unset : sb ≡ init → xs ≡ [] → Holds sb xs
  holds : (rest : List ℕ) → sb ≡ holding xs (0 ∷ rest) → Holds sb xs

pub blit-front :
    (room bytes : List ℕ)
    → length bytes ≤ length room
    → blit room 0 bytes ≡ bytes ++ drop (length bytes) room
unfolding blit
blit-front [] [] h = refl
blit-front (r ∷ rs) [] h = refl
blit-front [] (c ∷ cs) h = absurd (omega arith)
blit-front (r ∷ rs) (c ∷ cs) h = ap (◌∷◌ c) (blit-front rs cs (omega arith))

pub blit-append :
    (xs room bytes : List ℕ) → blit (xs ++ room) (length xs) bytes ≡ xs ++ blit room 0 bytes
unfolding blit
blit-append [] room bytes = refl
blit-append (x ∷ xs) room bytes = ap (◌∷◌ x) (blit-append xs room bytes)

pub set-append :
    (xs room : List ℕ) (n : ℕ) (v : ℕ)
    → n ≡ length xs
    → 0 < length room
    → set (xs ++ room) n v ≡ xs ++ v ∷ drop 1 room
set-append [] [] n v e h = absurd (omega arith)
set-append [] (r ∷ rs) zero v e h = refl
set-append [] (r ∷ rs) (suc n) v e h = absurd (omega arith)
set-append (x ∷ xs) room zero v e h = absurd (omega arith)
set-append (x ∷ xs) room (suc n) v e h = ap (◌∷◌ x) (set-append xs room n v (omega arith) h)

-- After __ni_stringbuf_realloc there is room for `n` more bytes and the 0.
pub data HasRoom (xs : List ℕ) (n : ℕ) (sb : Option StringBuf) : Type 0 where
  has_room : (room : List ℕ) → n < length room → sb ≡ some (holding xs room) → HasRoom xs n sb

abbrev make : ℕ → ℕ → List ℕ → StringBuf
make size len mem = record { size = size; len = len; string = some mem; dynamic = true }

zeros : ℕ → List ℕ
zeros n = replicate n 0

grow_lem :
    (xs old : List ℕ) (size len : ℕ)
    → len ≡ length xs
    → take (length xs) old ≡ xs
    → len ≤ size
    → make size len (cleared len size old) ≡ holding xs (zeros (size - length xs))
unfolding cleared zeros
grow_lem xs old size len e t h =
    let mem : cleared len size old ≡ xs ++ zeros (size - length xs) =
      ap (λ l. take l old ++ zeros (size - l)) e ∙ ap (λ ys. ys ++ zeros (size - length xs)) t in
    let all : size ≡ length (xs ++ zeros (size - length xs)) = omega (
      arith,
      length-append xs (zeros (size - length xs)),
      length-replicate {A = ℕ} (size - length xs) 0,
      e,
      h,
    ) in
    ap (make size len) mem
    ∙ ap (λ l. make size l (xs ++ zeros (size - length xs))) e
    ∙ ap (λ s. make s (length xs) (xs ++ zeros (size - length xs))) all

length-zeros : (n : ℕ) → length (zeros n) ≡ n
unfolding zeros
length-zeros n = length-replicate {A = ℕ} n 0

pub realloc-HasRoom :
    (sb : StringBuf) (xs : List ℕ) (n : ℕ) → Holds sb xs → HasRoom xs n (realloc sb n)
unfolding realloc new_size
realloc-HasRoom sb xs n (unset e f) =
    subst (λ sb. HasRoom xs n (realloc sb n)) (sym e)
      (let size = (0 + (n + 1) + (chunk - 1)) / chunk * chunk in
        let big : ltb 0 (0 + n + 1) ≡ true = ground arith in
        let same : realloc init n ≡ some (make size 0 (cleared 0 size [])) = rw big refl in
        let nil : length xs ≡ 0 = ap length f in
        has_room (zeros (size - length xs)) (omega (arith, length-zeros (size - length xs), nil)) (
          same
          ∙ ap some (
              grow_lem xs [] size 0 (sym nil) (ap (λ ys. take (length ys) []) f ∙ sym f)
                (omega arith))))
realloc-HasRoom sb xs n (holds rest e) =
    subst (λ sb. HasRoom xs n (realloc sb n)) (sym e)
      (let size = (length xs + (n + 1) + (chunk - 1)) / chunk * chunk in
        let old = xs ++ 0 ∷ rest in
        elim (Bool-cases (ltb (length old) (length xs + n + 1))) [
          | inl small ↦
              let same : realloc (holding xs (0 ∷ rest)) n
                  ≡ some (make size (length xs) (cleared (length xs) size old)) =
                rw small refl in
              has_room (zeros (size - length xs)) (omega (arith, length-zeros (size - length xs))) (
                same
                ∙ ap some (
                    grow_lem xs old size (length xs) refl (take-length-append xs (0 ∷ rest))
                      (omega arith)))
          | inr big ↦
              let same : realloc (holding xs (0 ∷ rest)) n ≡ some (holding xs (0 ∷ rest)) =
                rw big refl in
              has_room (0 ∷ rest) (ground (arith, big, length-append xs (0 ∷ rest))) same
        ])
