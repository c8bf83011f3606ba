-- ===== src/Timer/Order.antt =====
-- The timer list stays in the order of expiry, and a timer that is armed expires when it should.
use testbus.Base.{
  ℕ, ◌+◌, ◌*◌, ◌≤◌, ◌<◌, ◌≡◌, refl, List, [], ◌∷◌, ◌++◌, Option, none, some, true, false, arith,
  All, if◌then◌else◌, ◌==◌, Bool-cases, Option-cases, ◌⊎◌, subst, ap, inl, inr, Timeval, time_lt,
  time_lt_iff, micros, IsNormal,
}
use testbus.Timer.{Timer, deadline, insert, arm, disarm, cancel, rearm, rearm_found}

-- No timer of the list expires before `m`, each has its microseconds in range, and they are in the
-- order of expiry.
abbrev pub From : ℕ → List Timer → Type 0
From m [] = Unit {0}
From m (t ∷ ts) = IsNormal t.expires × (m ≤ micros t.expires) × From (micros t.expires) ts

abbrev pub IsSorted : List Timer → Type 0
IsSorted ts = From 0 ts

pub From-mono : (m n : ℕ) (ts : List Timer) → m ≤ n → From n ts → From m ts
From-mono m n [] h f = tt
From-mono m n (t ∷ ts) h f = (f.0, omega (arith, h, f.1), f.2)

pub deadline_lem :
    (now : Timeval) (timeout : ℕ)
    → IsNormal now
    → IsNormal (deadline now timeout)
      × (micros (deadline now timeout) ≡ micros now + timeout * 1000)
unfolding deadline
deadline_lem now timeout n = ground arith

later : (m n : ℕ) (ts : List Timer) → m < n → From n ts → All (λ u. m < micros u.expires) ts
later m n [] h f = tt
later m n (t ∷ ts) h f =
    (omega (arith, h, f.1), later m (micros t.expires) ts (omega (arith, h, f.1)) f.2)

-- Where a timer goes: after those that expire no later, before the others.
pub insert_lem :
    (m : ℕ) (t : Timer) (ts : List Timer)
    → IsNormal t.expires
    → m ≤ micros t.expires
    → From m ts
    → From m (insert t ts)
      × (before after : List Timer) × (ts ≡ before ++ after)
      × (insert t ts ≡ before ++ t ∷ after)
      × All (λ u. micros u.expires ≤ micros t.expires) before
      × All (λ u. micros t.expires < micros u.expires) after
unfolding insert
insert_lem m t [] n l f = ((n, l, tt), [], [], refl, refl, tt, tt)
insert_lem m t (u ∷ us) n l f = elim (Bool-cases (time_lt t.expires u.expires)) [
  | inl yes' ↦
      let h : micros t.expires < micros u.expires =
        (time_lt_iff t.expires u.expires n f.0).0 yes' in
      rw yes' (
        (n, l, (f.0, omega (arith, h), f.2)),
        [],
        u ∷ us,
        refl,
        refl,
        tt,
        (h, later (micros t.expires) (micros u.expires) us h f.2),
      )
  | inr no' ↦
      let h : micros u.expires ≤ micros t.expires =
        ground (arith, no', time_lt_iff t.expires u.expires n f.0) in
      let (sorted, before, after, old, new, le, lt) = insert_lem (micros u.expires) t us n h f.2 in
      rw no' ((f.0, f.1, sorted), u ∷ before, after, ap (◌∷◌ u) old, ap (◌∷◌ u) new, (h, le), lt)
]

-- The timer with a given address.
unfoldable pub armed : ℕ → List Timer → Option Timer
armed h [] = none
armed h (t ∷ ts) = if t.handle == h then some t else armed h ts

-- The list without its first timer at that address.
unfoldable pub without : ℕ → List Timer → List Timer
without h [] = []
without h (t ∷ ts) = if t.handle == h then ts else t ∷ without h ts

-- Arming a timer keeps an ordered list in order. The timer expires exactly `timeout` milliseconds
-- from now, and stands after all timers that expire no later and before the others, so that timers
-- of the same time expire in the order in which they were armed.
pub arm_lem :
    (now : Timeval) (t : Timer) (timeout : ℕ) (ts : List Timer)
    → IsNormal now
    → IsSorted ts
    → IsSorted (arm now t timeout ts)
      × (micros (deadline now timeout) ≡ micros now + timeout * 1000)
      × (before after : List Timer) × (ts ≡ before ++ after)
      × (arm now t timeout ts ≡ before ++ record t { expires = deadline now timeout } ∷ after)
      × All (λ u. micros u.expires ≤ micros now + timeout * 1000) before
      × All (λ u. micros now + timeout * 1000 < micros u.expires) after
unfolding arm
arm_lem now t timeout ts n s =
    let (normal, exact) = deadline_lem now timeout n in
    let (sorted, before, after, old, new, le, lt) =
      insert_lem 0 (record t { expires = deadline now timeout }) ts normal (omega arith) s in
    (
      sorted,
      exact,
      before,
      after,
      old,
      new,
      subst (λ m. All (λ u. micros u.expires ≤ m) before) exact le,
      subst (λ m. All (λ u. m < micros u.expires) after) exact lt,
    )

disarm_lem :
    (h m : ℕ) (ts : List Timer)
    → From m ts
    → (disarm h ts ≡ (armed h ts, without h ts)) × From m (without h ts)
unfolding disarm armed without
disarm_lem h m [] f = (refl, tt)
disarm_lem h m (t ∷ ts) f =
    let (same, sorted) = disarm_lem h (micros t.expires) ts f.2 in
    elim (Bool-cases (t.handle == h)) [
      | inl e ↦ rw e (refl, From-mono m (micros t.expires) ts f.1 f.2)
      | inr e ↦ rw e (rw same refl, (f.0, f.1, sorted))
    ]

without-none : (h : ℕ) (ts : List Timer) → armed h ts ≡ none → without h ts ≡ ts
unfolding armed without
without-none h [] e = refl
without-none h (t ∷ ts) e = ground (arith, e, without-none h ts)

-- Cancelling a timer takes it alone out of the list and returns its user data. Rearming it takes it
-- out and arms it anew, with everything else of it kept. With a handle that is not armed, both
-- report so and leave the list alone. The list stays in order.
pub cancel-rearm :
    (now : Timeval) (h timeout : ℕ) (ts : List Timer)
    → IsNormal now
    → IsSorted ts
    → IsSorted (cancel h ts).1
      × IsSorted (rearm now h timeout ts).1
      × (((armed h ts ≡ none) × (cancel h ts ≡ (none, ts)) × (rearm now h timeout ts ≡ (false, ts)))
          ⊎ ((t : Timer) × (armed h ts ≡ some t)
              × (cancel h ts ≡ (some t.user_data, without h ts))
              × (rearm now h timeout ts ≡ (true, arm now t timeout (without h ts)))))
unfolding cancel rearm rearm_found
cancel-rearm now h timeout ts n s =
    let (same, sorted) = disarm_lem h 0 ts s in
    elim (Option-cases (armed h ts)) [
      | inl e ↦
          let g = without-none h ts e in
          rw same
            (rw e (sorted, sorted, inl (refl, ap (λ us. (none, us)) g, ap (λ us. (false, us)) g)))
      | inr (t, e) ↦ rw same (
          rw e
            (sorted, (arm_lem now t timeout (without h ts) n sorted).0, inr (t, refl, refl, refl)))
    ]
