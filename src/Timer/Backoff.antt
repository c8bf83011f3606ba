-- ===== src/Timer/Backoff.antt =====
-- ni_timeout_recompute, called once for every retry.
use testbus.Base.{
  ℕ, zero, suc, ◌+◌, ◌*◌, ◌^◌, ◌≤◌, ◌<◌, ◌≡◌, refl, ◌≢◌, Option, none, some, arith, ltb, ltb→lt,
  ltb→le, Bool-cases, inl, inr, min, ap, subst, sym, ◌∙◌,
}
use testbus.Timer.{TimeoutParam, Increment, adds, doubles, next_step, recompute}

-- The parameters after a number of retries.
unfoldable pub retried : ℕ → TimeoutParam → TimeoutParam
retried zero p = p
retried (suc n) p = retried n (recompute none p).1

-- The growth of the timeout with no cap on it.
unfoldable pub grown : Increment → ℕ → ℕ → ℕ
grown (adds d) zero t = t
grown (adds d) (suc n) t = grown (adds d) n (t + d)
grown doubles zero t = t
grown doubles (suc n) t = grown doubles n (t * 2)

-- What a cap below 2 ^ 31 asks for: 32 bits hold every sum.
abbrev pub Fits : Increment → Type 0
Fits (adds d) = d < 2 ^ 31
Fits doubles = Unit {0}

grown_mono : (i : Increment) (n a b : ℕ) → a ≤ b → grown i n a ≤ grown i n b
unfolding grown
grown_mono (adds d) zero a b h = h
grown_mono (adds d) (suc n) a b h = grown_mono (adds d) n (a + d) (b + d) (omega arith)
grown_mono doubles zero a b h = h
grown_mono doubles (suc n) a b h = grown_mono doubles n (a * 2) (b * 2) (omega arith)

grown_le : (i : Increment) (n a : ℕ) → a ≤ grown i n a
unfolding grown
grown_le (adds d) zero a = omega arith
grown_le (adds d) (suc n) a = omega (arith, grown_le (adds d) n (a + d))
grown_le doubles zero a = omega arith
grown_le doubles (suc n) a = omega (arith, grown_le doubles n (a * 2))

-- Cutting the timeout at the cap first makes no difference once it is cut again.
min-grown : (i : Increment) (n t m : ℕ) → min (grown i n (min t m)) m ≡ min (grown i n t) m
min-grown i n t m = elim (Bool-cases (ltb m t)) [
  | inl e ↦ let h = ltb→lt m t e in omega (arith, h, grown_le i n (min t m), grown_le i n t)
  | inr e ↦ ap (λ k. min k m) (same i n t m (ltb→le m t e))
]
  where
    same : (i : Increment) (n t m : ℕ) → t ≤ m → grown i n (min t m) ≡ grown i n t
    same i n t m h = ap (grown i n) (omega arith)

grown_one : (i : Increment) (n t : ℕ) → grown i (suc n) t ≡ grown i n (grown i 1 t)
unfolding grown
grown_one (adds d) n t = refl
grown_one doubles n t = refl

next_step-min :
    (p : TimeoutParam)
    → p.max_timeout < 2 ^ 31
    → p.timeout ≤ p.max_timeout
    → Fits p.increment
    → next_step p ≡ min (grown p.increment 1 p.timeout) p.max_timeout
unfolding next_step grown
next_step-min p m t f = by_sign p.increment p refl m t f
  where
    by_sign :
        (i : Increment) (p : TimeoutParam)
        → p.increment ≡ i
        → p.max_timeout < 2 ^ 31
        → p.timeout ≤ p.max_timeout
        → Fits p.increment
        → next_step p ≡ min (grown p.increment 1 p.timeout) p.max_timeout
    by_sign (adds d) p e m t f =
        let g : d < 2 ^ 31 = subst Fits e f in rw e (ground (arith, m, t, g))
    by_sign doubles p e m t f = rw e (ground (arith, m, t))

recompute_lem :
    (p : TimeoutParam)
    → p.nretries ≢ some 0
    → (recompute none p).1 ≡ record p { timeout = next_step p }
unfolding recompute
recompute_lem p r = by_limit p.nretries p refl r
  where
    by_limit :
        (l : Option ℕ) (p : TimeoutParam)
        → p.nretries ≡ l
        → l ≢ some 0
        → (recompute none p).1 ≡ record p { timeout = next_step p }
    by_limit none p e r = rw e refl
    by_limit (some zero) p e r = absurd (r refl)
    by_limit (some (suc l)) p e r = rw e refl

-- If retries are not used up, the cap and the increment are below 2 ^ 31 and the initial timeout is
-- within the cap: after `n` retries without a backoff callback the timeout is the initial one grown
-- `n` times, by addition or by doubling, and cut at the cap. The 32-bit arithmetic never wraps,
-- whatever `n`.
pub retried_lem :
    (n : ℕ) (p : TimeoutParam)
    → p.nretries ≢ some 0
    → p.max_timeout < 2 ^ 31
    → p.timeout ≤ p.max_timeout
    → Fits p.increment
    → retried n p ≡ record p { timeout = min (grown p.increment n p.timeout) p.max_timeout }
unfolding retried grown
retried_lem zero p r m t f =
    ap (λ k. record p { timeout = k }) (start p.increment p.timeout p.max_timeout t)
  where
    start : (i : Increment) (t m : ℕ) → t ≤ m → t ≡ min (grown i 0 t) m
    start (adds d) t m h = omega arith
    start doubles t m h = omega arith
retried_lem (suc n) p r m t f =
    ap (retried n) (recompute_lem p r)
    ∙ retried_lem n (record p { timeout = next_step p }) r m (omega (arith, next_step-min p m t f))
        f
    ∙ ap (λ k. record p { timeout = k })
        (ap (λ k. min (grown p.increment n k) p.max_timeout) (next_step-min p m t f)
          ∙ min-grown p.increment n (grown p.increment 1 p.timeout) p.max_timeout
          ∙ ap (λ k. min k p.max_timeout) (sym (grown_one p.increment n p.timeout)))
