-- ===== src/Timer/Expiry.antt =====
-- ni_timer_next_timeout: which callbacks run, and how long the main loop may sleep.
use testbus.Base.{
  ℕ, zero, suc, ◌+◌, ◌-◌, ◌/◌, ◌≤◌, ◌<◌, ◌≡◌, refl, List, [], ◌∷◌, Option, none, some, Bool, true,
  false, arith, All, if◌then◌else◌, ltb, Bool-cases, inl, inr, Timeval, time_lt, time_sub, micros,
  IsNormal, ap,
}
use testbus.Timer.{Timer, insert, remaining, next_timeout}
use testbus.Timer.Order.{From, IsSorted, From-mono}

-- A timer that has less than a millisecond left is due.
abbrev pub is_due : Timeval → Timer → Bool
is_due now t = ltb (micros t.expires) (micros now + 1000)

unfoldable pub due : Timeval → List Timer → ℕ
due now [] = 0
due now (t ∷ ts) = (if is_due now t then 1 else 0) + due now ts

pub remaining_lem :
    (now : Timeval) (t : Timer)
    → IsNormal now
    → IsNormal t.expires
    → remaining now t ≡ (micros t.expires - micros now) / 1000
unfolding remaining time_lt time_sub
remaining_lem now t n m = ground arith

-- How long a list of timers lets the main loop sleep: until the first expires, if there is one.
pub wait : Timeval → List Timer → Option ℕ
wait now [] = none
wait now (t ∷ ts) = some ((micros t.expires - micros now) / 1000)

-- Callbacks that keep the list in order and let no more timers be due, as one does that arms timers
-- for later.
pub record Calm {W : Type 0} (now : Timeval) (fire : Timer → List Timer × W → List Timer × W)
    : Type 0 where
  pub sorted : (t : Timer) (ts : List Timer) (w : W) → IsSorted ts → IsSorted (fire t (ts, w)).0
  pub fewer :
      (t : Timer) (ts : List Timer) (w : W) → IsSorted ts → due now (fire t (ts, w)).0 ≤ due now ts

-- One state comes from the other by taking due timers off the front of the list, and running the
-- callback of each.
pub data Runs {W : Type 0} (now : Timeval) (fire : Timer → List Timer × W → List Timer × W)
    : List Timer × W → List Timer × W → Type 0 where
  stops : {s : List Timer × W} → Runs now fire s s
  fires :
      {t : Timer} {ts : List Timer} {w : W} {s : List Timer × W}
      → is_due now t ≡ true
      → Runs now fire (fire t (ts, w)) s
      → Runs now fire (t ∷ ts, w) s

pub due-insert :
    (now : Timeval) (t : Timer) (ts : List Timer)
    → due now (insert t ts) ≡ (if is_due now t then 1 else 0) + due now ts
unfolding due insert
due-insert now t [] = refl
due-insert now t (u ∷ us) = ground (arith, due-insert now t us)

none_due :
    (now : Timeval) (m : ℕ) (ts : List Timer)
    → micros now + 1000 ≤ m
    → From m ts
    → All (λ t. micros now + 1000 ≤ micros t.expires) ts
none_due now m [] h f = tt
none_due now m (t ∷ ts) h f =
    (omega (arith, h, f.1), none_due now (micros t.expires) ts (omega (arith, h, f.1)) f.2)

-- With callbacks that keep the list in order and arm timers for later only, and more rounds than
-- timers due, the loop ends. It takes the timers that have less than a millisecond left off the list
-- and runs their callbacks, and no others; then none of these is left, the list is in order, and the
-- result is the time until the first timer expires, or -1 if there is none.
pub next_timeout_lem :
    {W : Type 0} (fire : Timer → List Timer × W → List Timer × W) (now : Timeval) (fuel : ℕ)
    (ts : List Timer) (w : W)
    → Calm now fire
    → IsNormal now
    → IsSorted ts
    → due now ts < fuel
    → (us : List Timer) × (v : W) × (next_timeout fuel fire now (ts, w)
        ≡ some (wait now us, (us, v)))
      × Runs now fire (ts, w) (us, v)
      × IsSorted us
      × All (λ t. micros now + 1000 ≤ micros t.expires) us
unfolding next_timeout due wait
next_timeout_lem fire now zero ts w c n s h = absurd (omega arith)
next_timeout_lem fire now (suc fuel) [] w c n s h = ([], w, refl, stops, tt, tt)
next_timeout_lem fire now (suc fuel) (t ∷ ts) w c n s h =
    let exact = remaining_lem now t n s.0 in
    elim (Bool-cases (is_due now t)) [
      | inl yes' ↦
          let stop : ltb 0 (remaining now t) ≡ false = ground (arith, exact, yes') in
          let later = From-mono 0 (micros t.expires) ts (omega arith) s.2 in
          let (us, v, run, runs, sorted, far) =
            next_timeout_lem fire now fuel (fire t (ts, w)).0 (fire t (ts, w)).1 c n
              (c.sorted t ts w later) (ground (arith, h, yes', c.fewer t ts w later)) in
          rw (next_timeout, stop) (us, v, run, fires yes' runs, sorted, far)
      | inr no' ↦
          let go : ltb 0 (remaining now t) ≡ true = ground (arith, exact, no') in
          let far : micros now + 1000 ≤ micros t.expires = ground (arith, no') in
          rw (next_timeout, go)
            (
              t ∷ ts,
              w,
              ap (λ k. some (some k, (t ∷ ts, w))) exact,
              stops,
              s,
              (far, none_due now (micros t.expires) ts far s.2),
            )
    ]
