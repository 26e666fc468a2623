-- ===== src/Startup/Retry.antt =====
-- `retry` of cmd/processor/main.go.
use confluo.Prelude.{
  ℕ, zero, suc, ◌+◌, ◌≤◌, ◌<◌, ◌≡◌, refl, ◌∷◌, Bool-cases, Option-cases, inl, inr, Option, none,
  some, ltb, ltb→lt, arith, if◌then◌else◌,
}
use confluo.Fault.{Error, Result, ok, err}
use confluo.World.{
  History, Event, Services, World, Go, time_now, context_err, sleep, slept, clock_read,
  context_checked,
}

-- Two seconds.
abbrev pub first_backoff : ℕ
first_backoff = 2000000000

-- The wait before the next attempt grows up to ten seconds.
abbrev pub next_backoff : ℕ → ℕ
next_backoff b = if ltb b 10000000000 then b + 2000000000 else b

-- A run that may run out of fuel: `none` is not an outcome of the code.
abbrev pub Fueled : Type 0
Fueled = Services → World → Option (Result (Unit {0}) × World)

abbrev after_wait :
    (ℕ → Fueled) → ℕ → Services → Result (Unit {0}) × World → Option (Result (Unit {0}) × World)
after_wait again b env (ok u, w) = again (next_backoff b) env w
after_wait again b env (err e, w) = some (err e, w)

-- An attempt has failed: the context, the deadline, then the wait.
abbrev after_clock :
    (ℕ → Fueled) → ℕ → ℕ → Error → Services → World → Option (Result (Unit {0}) × World)
after_clock again deadline b e env w =
    let now = env.now w.history in
    let w1 = (time_now env w).1 in
    if ltb deadline now then some (err e, w1) else after_wait again b env (sleep b env w1)

abbrev after_context :
    (ℕ → Fueled)
    → ℕ
    → ℕ
    → Error
    → Services
    → Option Error
    → World
    → Option (Result (Unit {0}) × World)
after_context again deadline b e env none w = after_clock again deadline b e env w
after_context again deadline b e env (some x) w = some (err x, w)

abbrev after_attempt :
    (ℕ → Fueled) → ℕ → ℕ → Services → Result (Unit {0}) × World → Option (Result (Unit {0}) × World)
after_attempt again deadline b env (ok u, w) = some (ok tt, w)
after_attempt again deadline b env (err e, w) =
    after_context again deadline b e env (env.cancelled w.history) (context_err env w).1

-- The `for` loop, with fuel for the attempts.
unfoldable pub retry_loop : ℕ → Go (Unit {0}) → ℕ → ℕ → Fueled
retry_loop zero fn deadline b env w = none
retry_loop (suc fuel) fn deadline b env w =
    after_attempt (retry_loop fuel fn deadline) deadline b env (fn env w)

-- `retry`
unfoldable pub retry : ℕ → ℕ → Go (Unit {0}) → Fueled
unfolding retry_loop
retry fuel max_duration fn env w =
    let w1 = (time_now env w).1 in
    retry_loop fuel fn (env.now w.history + max_duration) first_backoff env w1

-- The clock does not run backwards, and a wait that is not cut off takes its time.
pub record IsClock (env : Services) : Type 0 where
  pub monotone : (e : Event) (h : History) → env.now h ≤ env.now (e ∷ h)
  pub waits : (h : History) (d : ℕ) → env.now h + d ≤ env.now (slept d none ∷ h)

-- What ends a run with an error: a reading of the clock past the deadline, or the context, looked at
-- or met in a wait, whose error is then the one that is returned.
abbrev pub EndedBy : ℕ → Error → History → Type 0
EndedBy deadline e (clock_read t ∷ h) = deadline < t
EndedBy deadline e (context_checked (some x) ∷ h) = x ≡ e
EndedBy deadline e (slept d (some x) ∷ h) = x ≡ e
EndedBy deadline e _ = ⊥

-- An outcome without an error is that of a last attempt.
abbrev pub IsOutcome : Go (Unit {0}) → ℕ → Services → Result (Unit {0}) × World → Type 0
IsOutcome fn deadline env (ok u, w') = (w1 : World) × (fn env w1 ≡ (ok tt, w'))
IsOutcome fn deadline env (err e, w') = EndedBy deadline e w'.history

-- The run ends, with such an outcome.
abbrev pub Ended : Go (Unit {0}) → ℕ → Services → Option (Result (Unit {0}) × World) → Type 0
Ended fn deadline env r =
    (o : Result (Unit {0}) × World) × (r ≡ some o) × IsOutcome fn deadline env o

module _ (env : Services) (clock : IsClock env) (fn : Go (Unit {0})) where
  -- The loop behind a failed attempt ends, if it ends from any world after the wait.
  abbrev EndsAfter : (ℕ → Fueled) → ℕ → ℕ → ℕ → Type 0
  EndsAfter again deadline b t =
      (w : World)
      → t + b ≤ env.now w.history
      → t ≤ deadline
      → Ended fn deadline env (again (next_backoff b) env w)

  clock_ends :
      (again : ℕ → Fueled) (deadline b t : ℕ) (e : Error) (w : World)
      → EndsAfter again deadline b t
      → t ≤ env.now w.history
      → Ended fn deadline env (after_clock again deadline b e env w)
  clock_ends again deadline b t e w rest at =
      let w1 : World = (time_now env w).1 in
      let m1 = clock.monotone (clock_read (env.now w.history)) w.history in
      elim (Bool-cases (ltb deadline (env.now w.history))) [
        | inl over ↦ ((err e, w1), rw over, ltb→lt deadline (env.now w.history) over)
        | inr left ↦ elim (Option-cases (env.sleep w1.history b)) [
          | inl s ↦
              let w2 : World = record w1 { history = slept b none ∷ w1.history } in
              let m2 = clock.waits w1.history b in
              let (o, p, q) = rest w2 (omega arith) (ground (arith, left)) in (o, rw (left, s) p, q)
          | inr (x, s) ↦ (
            (err x, record w1 { history = slept b (some x) ∷ w1.history }),
            rw (left, s) refl,
            refl,
          )
        ]
      ]

  context_ends :
      (again : ℕ → Fueled) (deadline b t : ℕ) (e : Error) (o : Option Error) (h : History)
      (w : World)
      → w.history ≡ context_checked o ∷ h
      → EndsAfter again deadline b t
      → t ≤ env.now w.history
      → Ended fn deadline env (after_context again deadline b e env o w)
  context_ends again deadline b t e none h w c rest at = clock_ends again deadline b t e w rest at
  context_ends again deadline b t e (some x) h w c rest at = ((err x, w), refl, rw c refl)

  attempt_ends :
      (again : ℕ → Fueled) (deadline b t : ℕ) (w0 : World) (p : Result (Unit {0}) × World)
      → fn env w0 ≡ p
      → EndsAfter again deadline b t
      → t ≤ env.now p.1.history
      → Ended fn deadline env (after_attempt again deadline b env p)
  attempt_ends again deadline b t w0 (ok tt, w) f rest at = ((ok tt, w), refl, (w0, f))
  attempt_ends again deadline b t w0 (err e, w) f rest at =
      let m = clock.monotone (context_checked (env.cancelled w.history)) w.history in
      context_ends again deadline b t e (env.cancelled w.history) w.history (context_err env w).1
        refl rest (omega arith)

  module _ (later : (w : World) → env.now w.history ≤ env.now (fn env w).1.history) where
    -- From a time on, the loop ends within some attempts.
    abbrev Ends : ℕ → ℕ → ℕ → ℕ → Type 0
    Ends fuel deadline b t =
        (w : World)
        → t ≤ env.now w.history
        → Ended fn deadline env (retry_loop fuel fn deadline b env w)

    Ends-last : (deadline b t : ℕ) → deadline < t → Ends 1 deadline b t
    unfolding retry_loop
    Ends-last deadline b t h w at =
        let l = later w in
        attempt_ends (retry_loop 0 fn deadline) deadline b t w (fn env w) refl
          (λ w2 _ k. absurd (omega arith)) (omega arith)

    Ends-next :
        (fuel deadline b t : ℕ)
        → Ends fuel deadline (next_backoff b) (t + b)
        → Ends (suc fuel) deadline b t
    unfolding retry_loop
    Ends-next fuel deadline b t rest w at =
        let l = later w in
        attempt_ends (retry_loop fuel fn deadline) deadline b t w (fn env w) refl
          (λ w2 k _. rest w2 k) (omega arith)

    -- Whatever the dependency does and the context says, as long as the clock does not run backwards,
    -- not in an attempt either, and waits take their time: `retry` with the thirty seconds of `run`
    -- ends within seven attempts. It ends without an error right after an attempt without one, and
    -- with an error when the clock has passed the deadline or with that of the context.
    pub retry_ends :
        (w : World) → Ended fn (env.now w.history + 30000000000) env (retry 7 30000000000 fn env w)
    unfolding retry
    retry_ends w =
        let t = env.now w.history in
        let deadline = t + 30000000000 in
        let m = clock.monotone (clock_read t) w.history in
        Ends-next 6 deadline 2000000000 t
          (Ends-next 5 deadline 4000000000 _ (
            Ends-next 4 deadline 6000000000 _ (
              Ends-next 3 deadline 8000000000 _ (
                Ends-next 2 deadline 10000000000 _ (
                  Ends-next 1 deadline 10000000000 _ (
                    Ends-last deadline 10000000000
                      (t + 2000000000 + 4000000000 + 6000000000 + 8000000000 + 10000000000
                        + 10000000000)
                      (omega arith)))))))
          (time_now env w).1 (omega arith)
