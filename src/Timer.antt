-- ===== src/Timer.antt =====
-- dborb/timer.c: the list of pending timers, in the order in which they expire, and the timeouts
-- between retries.
pub mod Order
pub mod Expiry
pub mod Backoff
use testbus.Base.{
  ℕ, zero, suc, ◌+◌, ◌-◌, ◌*◌, ◌/◌, ◌%◌, ◌^◌, List, [], ◌∷◌, Option, none, some, Bool, true, false,
  not, if◌then◌else◌, ◌==◌, ltb, leb, Timeval, time_lt, time_sub,
}

-- struct ni_timer. `handle` is its address; the callback and its `user_data` are known by a number.
pub record Timer : Type 0 where
  pub handle : ℕ
  pub ident : ℕ
  pub expires : Timeval
  pub user_data : ℕ

-- ni_timer_list, and the static id_counter.
pub record Timers : Type 0 where
  pub list : List Timer
  pub id_counter : ℕ

-- The time of expiry that __ni_timer_arm computes, `timeout` milliseconds from `now`.
unfoldable pub deadline : Timeval → ℕ → Timeval
deadline now timeout =
    let sec = now.sec + timeout / 1000 in
    let usec = now.usec + timeout % 1000 * 1000 in
    if leb 1000000 usec
    then record { sec = sec + 1; usec = usec - 1000000 }
    else record { sec = sec; usec = usec }

-- The loop of __ni_timer_arm: the timer goes before the first one that expires later.
unfoldable pub insert : Timer → List Timer → List Timer
insert t [] = t ∷ []
insert t (u ∷ us) = if time_lt t.expires u.expires then t ∷ u ∷ us else u ∷ insert t us

-- __ni_timer_arm, at the time `now`.
unfoldable pub arm : Timeval → Timer → ℕ → List Timer → List Timer
unfolding deadline insert
arm now t timeout ts = insert (record t { expires = deadline now timeout }) ts

-- The loop of __ni_timer_disarm unlinks the timer; the rest of the list stays.
unfoldable pub disarm : ℕ → List Timer → Option Timer × List Timer
disarm h [] = (none, [])
disarm h (t ∷ ts) =
    let rest = disarm h ts in if t.handle == h then (some t, ts) else (rest.0, t ∷ rest.1)

-- ni_timer_register: `handle` is the address that xcalloc returns.
unfoldable pub register : Timeval → ℕ → ℕ → ℕ → Timers → Timers
unfolding arm
register now handle timeout user_data s =
    let t : Timer = record {
      handle = handle;
      ident = s.id_counter;
      expires = record { sec = 0; usec = 0 };
      user_data = user_data;
    } in
    record { list = arm now t timeout s.list; id_counter = (s.id_counter + 1) % 2 ^ 32 }

-- ni_timer_cancel returns the timer's user data, NULL for a handle that is not armed.
unfoldable pub cancel : ℕ → List Timer → Option ℕ × List Timer
unfolding disarm
cancel h ts =
    let found = disarm h ts in (elim found.0 [ none ↦ none | some t ↦ some t.user_data ], found.1)

-- ni_timer_rearm, once the timer is looked up. It returns NULL for a handle that is not armed.
unfoldable pub rearm_found : Timeval → ℕ → Option Timer × List Timer → Bool × List Timer
unfolding arm
rearm_found now timeout (none, ts) = (false, ts)
rearm_found now timeout (some t, ts) = (true, arm now t timeout ts)

-- ni_timer_rearm
unfoldable pub rearm : Timeval → ℕ → ℕ → List Timer → Bool × List Timer
unfolding disarm rearm_found
rearm now h timeout ts = rearm_found now timeout (disarm h ts)

-- The milliseconds until a timer expires, 0 if it has expired.
unfoldable pub remaining : Timeval → Timer → ℕ
unfolding time_lt time_sub
remaining now t =
    if not (time_lt t.expires now)
    then (let delta = time_sub t.expires now in delta.sec * 1000 + delta.usec / 1000)
    else 0

-- The loop of ni_timer_next_timeout, on fuel. `fire` is the callback: it gets the list without the
-- timer, may change it, and may change the rest of the program's state. The result is -1, here
-- `none`, if no timer is left.
unfoldable pub next_timeout :
    {W : Type 0}
    → ℕ
    → (Timer → List Timer × W → List Timer × W)
    → Timeval
    → List Timer × W
    → Option (Option ℕ × (List Timer × W))
unfolding remaining
next_timeout zero fire now s = none
next_timeout (suc fuel) fire now ([], w) = some (none, ([], w))
next_timeout (suc fuel) fire now (t ∷ ts, w) = elim (ltb 0 (remaining now t)) [
  | true ↦ some (some (remaining now t), (t ∷ ts, w))
  | false ↦ next_timeout fuel fire now (fire t (ts, w))
]

-- The member `increment`, by its sign: 0 or more, or less than 0.
pub data Increment : Type 0 where
  adds : ℕ → Increment
  doubles : Increment

-- ni_timeout_param_t, less the jitter and the callback. Unlimited retries are `none`.
pub record TimeoutParam : Type 0 where
  pub nretries : Option ℕ
  pub timeout : ℕ
  pub increment : Increment
  pub max_timeout : ℕ

-- `tmo->timeout` after the lines that change it, in 32 bits.
unfoldable pub next_step : TimeoutParam → ℕ
next_step p =
    let t : ℕ = elim p.increment [
      | adds n ↦ (p.timeout + n) % 2 ^ 32
      | doubles ↦ p.timeout * 2 % 2 ^ 32
    ] in
    if ltb p.max_timeout t then p.max_timeout else t

-- ni_timeout_recompute; the backoff callback decides the result if there is one.
unfoldable pub recompute :
    Option (TimeoutParam → Bool × TimeoutParam) → TimeoutParam → Bool × TimeoutParam
unfolding next_step
recompute backoff p = elim p.nretries [
  | some zero ↦ (false, p)
  | _ ↦ elim backoff [
    | none ↦ (true, record p { timeout = next_step p })
    | some f ↦ f (record p { timeout = next_step p })
  ]
]
