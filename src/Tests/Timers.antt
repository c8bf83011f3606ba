-- ===== src/Tests/Timers.antt =====
-- dborb/timer.c at small inputs.
use testbus.Base.{
  ℕ, ◌+◌, ◌*◌, ◌≤◌, ◌<◌, ◌≡◌, refl, List, [], ◌∷◌, ◌++◌, some, arith, All, Timeval, micros, min,
}
use testbus.Timer.{
  Timer, TimeoutParam, doubles, deadline, insert, arm, disarm, cancel, remaining, next_timeout,
}
use testbus.Timer.Order.{IsSorted, arm_lem}
use testbus.Timer.Expiry.{Calm, Runs, due, due-insert, wait, next_timeout_lem}
use testbus.Timer.Backoff.{grown, retried, retried_lem}

abbrev now : Timeval
now = record { sec = 10; usec = 500000 }

abbrev timer : ℕ → ℕ → ℕ → Timer
timer h s u = record {
  handle = h;
  ident = h;
  expires = record { sec = s; usec = u };
  user_data = h * 10;
}

-- One that has expired, one that expires in half a millisecond, one in 1600 milliseconds.
abbrev list : List Timer
list = timer 1 9 0 ∷ timer 2 10 500500 ∷ timer 3 12 100000 ∷ []

list-IsSorted : IsSorted list
list-IsSorted = omega arith

-- A periodic timer: it notes when it was due, and is armed for a second later.
abbrev periodic : Timer → List Timer × List ℕ → List Timer × List ℕ
periodic t s = (arm now t 1000 s.0, micros t.expires ∷ s.1)

run-periodic :
    next_timeout 3 periodic now (list, [])
    ≡ some (
      some 1000,
      (timer 1 11 500000 ∷ timer 2 11 500000 ∷ timer 3 12 100000 ∷ [], 10500500 ∷ 9000000 ∷ []),
    )
unfolding next_timeout remaining arm insert deadline
run-periodic = refl

periodic-Calm : Calm now periodic
unfolding arm
periodic-Calm = record {
  sorted = λ t ts w s. (arm_lem now t 1000 ts (omega arith) s).0;
  fewer = λ t ts w s. ground (arith, due-insert now (record t { expires = deadline now 1000 }) ts);
}

two_due : due now list ≡ 2
unfolding due
two_due = refl

next_timeout_lem_example :
    (us : List Timer) × (v : List ℕ) × (next_timeout 3 periodic now (list, [])
      ≡ some (wait now us, (us, v)))
    × Runs now periodic (list, []) (us, v)
    × IsSorted us
    × All (λ t. micros now + 1000 ≤ micros t.expires) us
next_timeout_lem_example =
    next_timeout_lem periodic now 3 list [] periodic-Calm (omega arith) list-IsSorted
      (omega (arith, two_due))

arm_lem_example :
    let t = timer 4 0 0 in
    IsSorted (arm now t 1600 list)
    × (micros (deadline now 1600) ≡ micros now + 1600 * 1000)
    × (before after : List Timer) × (list ≡ before ++ after)
    × (arm now t 1600 list ≡ before ++ record t { expires = deadline now 1600 } ∷ after)
    × All (λ u. micros u.expires ≤ micros now + 1600 * 1000) before
    × All (λ u. micros now + 1600 * 1000 < micros u.expires) after
arm_lem_example = arm_lem now (timer 4 0 0) 1600 list (omega arith) list-IsSorted

cancel-two : cancel 2 list ≡ (some 20, timer 1 9 0 ∷ timer 3 12 100000 ∷ [])
unfolding cancel disarm
cancel-two = refl

abbrev param : TimeoutParam
param = record { nretries = some 5; timeout = 3; increment = doubles; max_timeout = 20 }

retried_lem_example : retried 4 param ≡ record param { timeout = min (grown doubles 4 3) 20 }
retried_lem_example = retried_lem 4 param (λ e. ground (arith, e)) (omega arith) (omega arith) tt
