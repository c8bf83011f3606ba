-- ===== src/Base/Time.antt =====
-- struct timeval of <sys/time.h>, and timercmp and timersub.
use Prim.Native.Nat.{ℕ, ◌+◌, ◌-◌, ◌*◌, ◌≤◌, ◌<◌}
use mathlib.Core.Path.{◌≡◌}
use mathlib.Core.Logic.{◌↔◌}
use mathlib.Core.Bool.{Bool, true}
use native.Mathlib.Omega.{arith}
use testbus.Base.Tests.{ltb, ◌==◌, if◌then◌else◌}

pub record Timeval : Type 0 where
  pub sec : ℕ
  pub usec : ℕ

-- timercmp(a, b, <)
unfoldable pub time_lt : Timeval → Timeval → Bool
time_lt a b = if a.sec == b.sec then ltb a.usec b.usec else ltb a.sec b.sec

-- timersub(a, b, ...), for a time `b` that is not after `a`.
unfoldable pub time_sub : Timeval → Timeval → Timeval
time_sub a b =
    if ltb a.usec b.usec
    then record { sec = a.sec - b.sec - 1; usec = a.usec + 1000000 - b.usec }
    else record { sec = a.sec - b.sec; usec = a.usec - b.usec }

-- In microseconds.
abbrev pub micros : Timeval → ℕ
micros t = t.sec * 1000000 + t.usec

abbrev pub IsNormal : Timeval → Type 0
IsNormal t = t.usec < 1000000

pub time_lt_iff :
    (a b : Timeval) → IsNormal a → IsNormal b → (time_lt a b ≡ true) ↔ (micros a < micros b)
unfolding time_lt
time_lt_iff a b n m = ground arith

pub micros-time_sub :
    (a b : Timeval)
    → IsNormal a
    → IsNormal b
    → micros b ≤ micros a
    → micros (time_sub a b) ≡ micros a - micros b
unfolding time_sub
micros-time_sub a b n m h = ground arith
