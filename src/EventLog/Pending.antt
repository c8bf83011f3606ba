-- ===== src/EventLog/Pending.antt =====
-- The events that are not consumed yet: the log as a queue.
use testbus.Base.{
  ℕ, zero, suc, ◌+◌, ◌-◌, ◌≤◌, ◌<◌, ◌≡◌, refl, List, [], ◌∷◌, ◌++◌, Option, none, some, arith,
  get_elem?, length, drop, length-drop, if◌then◌else◌, ltb, leb, leb→le, ltb→le, Bool-cases, inl,
  inr, ap, sym, ◌∙◌,
}
use testbus.EventLog.{Event, Log, consume, skip_upto, consume_upto}

abbrev pub pending : Log → List Event
pending log = drop log.consumed log.events

abbrev pub IsValid : Log → Type 0
IsValid log = log.consumed ≤ length log.events

pub drop-append : (n : ℕ) (xs ys : List Event) → n ≤ length xs → drop n (xs ++ ys) ≡ drop n xs ++ ys
drop-append zero xs ys h = refl
drop-append (suc n) [] ys h = absurd (omega arith)
drop-append (suc n) (x ∷ xs) ys h = drop-append n xs ys (omega arith)

drop-cons :
    (n : ℕ) (xs : List Event)
    → n < length xs
    → (e : Event) × (get_elem? xs n ≡ some e) × (drop n xs ≡ e ∷ drop (suc n) xs)
drop-cons n [] h = absurd (omega arith)
drop-cons zero (x ∷ xs) h = (x, refl, refl)
drop-cons (suc n) (x ∷ xs) h = drop-cons n xs (omega arith)

drop_all : (n : ℕ) (xs : List Event) → length xs ≤ n → drop n xs ≡ []
drop_all zero [] h = refl
drop_all zero (x ∷ xs) h = absurd (omega arith)
drop_all (suc n) [] h = refl
drop_all (suc n) (x ∷ xs) h = drop_all n xs (omega arith)

-- A queue of events, and its operations.
unfoldable pub pop : List Event → Option Event × List Event
pop [] = (none, [])
pop (e ∷ es) = (some e, es)

-- The events up to the first with a higher number are dropped.
unfoldable pub drop_upto : ℕ → List Event → List Event
drop_upto seq [] = []
drop_upto seq (e ∷ es) = if ltb seq e.sequence then e ∷ es else drop_upto seq es

pub consume-pop :
    (log : Log)
    → IsValid log
    → let (e, log') = consume log in ((e, pending log') ≡ pop (pending log)) × IsValid log'
unfolding consume pop
consume-pop log v = elim (Bool-cases (leb (length log.events) log.consumed)) [
  | inl done ↦
      let none_left = drop_all log.consumed log.events (leb→le _ _ done) in
      (ground (arith, done, none_left), ground (arith, done, v))
  | inr more ↦
      let (e, here, rest) = drop-cons log.consumed log.events (ground arith) in
      (ground (arith, more, here, rest), ground (arith, more))
]

skip_upto-drop :
    (seq i : ℕ) (es : List Event)
    → (i ≤ skip_upto seq i es)
      × (skip_upto seq i es ≤ i + length es)
      × (drop (skip_upto seq i es - i) es ≡ drop_upto seq es)
unfolding skip_upto drop_upto
skip_upto-drop seq i [] = (omega arith, omega arith, drop_all (i - i) [] (omega arith))
skip_upto-drop seq i (e ∷ es) = elim (Bool-cases (ltb seq e.sequence)) [
  | inl stop ↦ rw (stop) (omega arith, omega arith, rw (zero_sub i) refl)
  | inr go ↦
      let (low, high, same) = skip_upto-drop seq (i + 1) es in
      rw (go) (
        omega (arith, low),
        omega (arith, high),
        drop-suc (skip_upto seq (i + 1) es) i e es low ∙ same,
      )
]
  where
    zero_sub : (i : ℕ) → i - i ≡ 0
    zero_sub i = omega arith

    drop-suc :
        (k i : ℕ) (e : Event) (es : List Event)
        → i + 1 ≤ k
        → drop (k - i) (e ∷ es) ≡ drop (k - (i + 1)) es
    drop-suc k i e es h = ap (λ n. drop n (e ∷ es)) (one k i h)
      where
        one : (k i : ℕ) → i + 1 ≤ k → k - i ≡ suc (k - (i + 1))
        one k i h = omega arith

drop-drop : (n m : ℕ) (xs : List Event) → drop n (drop m xs) ≡ drop (m + n) xs
drop-drop n zero xs = ap (λ k. drop k xs) (omega arith)
drop-drop n (suc m) [] = drop_all n [] (omega arith) ∙ sym (drop_all (suc m + n) [] (omega arith))
drop-drop n (suc m) (x ∷ xs) = drop-drop n m xs ∙ ap (λ k. drop k (x ∷ xs)) (one n m)
  where
    one : (n m : ℕ) → suc (m + n) ≡ suc m + n
    one n m = omega arith

-- ni_eventlog_consume_upto takes the pending events up to the first one with a higher number.
pub consume_upto-drop_upto :
    (log : Log) (seq : ℕ)
    → IsValid log
    → (pending (consume_upto log seq) ≡ drop_upto seq (pending log))
      × IsValid (consume_upto log seq)
unfolding consume_upto
consume_upto-drop_upto log seq v =
    let i = skip_upto seq log.consumed (pending log) in
    let (low, high, same) = skip_upto-drop seq log.consumed (pending log) in
    let n : length (pending log) ≡ length log.events - log.consumed =
      length-drop log.consumed log.events in
    let moved : drop i log.events ≡ drop_upto seq (pending log) =
      ap (λ k. drop k log.events) (sum log.consumed i low)
      ∙ sym (drop-drop (i - log.consumed) log.consumed log.events)
      ∙ same in
    elim (Bool-cases (ltb log.consumed i)) [
      | inl yes' ↦ rw yes' (moved, omega (arith, n, high, v))
      | inr no' ↦
          rw no' (ap (λ k. drop k log.events) (omega (arith, low, ltb→le _ _ no')) ∙ moved, v)
    ]
  where
    sum : (c i : ℕ) → c ≤ i → i ≡ c + (i - c)
    sum c i h = omega arith
