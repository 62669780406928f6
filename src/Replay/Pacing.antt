-- ===== src/Replay/Pacing.antt =====
-- What the speed, the clock and the handler of a replay in data/replay.py change.
use binance_algo.Base.{
  inr, sym, inl, if◌then◌else◌, eq_iff, ◌↔◌, ℕ, String, true, some, List, [], ◌∷◌, Result, ok, err,
  ◌+◌, ◌-◌, ◌≡◌, refl, arith, ap, ◌∙◌,
}
use binance_algo.Transaction.{Result-cases}
use binance_algo.Replay.Engine.{
  result_of, Arithmetic, compare_results, VirtualReplayClock, ReplayResult, Progress, started,
  digest_from, digest_all, run_events, run_replay, progress, wait_until, sleep, verify_determinism,
}
use binance_algo.Replay.Events.{
  ReplayEvent, ReplayError, Yielded, exhausted, raised, yielded, ◌>>=◌,
}

module _ {Float : Type 0} (float : Arithmetic Float) where
  -- A clock that has slept for each delay, in their order, less those of nothing.
  abbrev pub slept : List Float → VirtualReplayClock Float → VirtualReplayClock Float
  slept [] c = c
  slept (d ∷ ds) c =
      if float.is_zero d
      then slept ds c
      else slept ds (record {
        elapsed_seconds = float.add c.elapsed_seconds d;
        sleep_calls = c.sleep_calls + 1;
      })

module _ {Data : Type 0} where
  -- The events before the end or the error.
  abbrev pub all_events : Yielded Data → List (ReplayEvent Data)
  all_events exhausted = []
  all_events (raised e) = []
  all_events (yielded e rest) = e ∷ all_events rest

  module _ {Float : Type 0} (float : Arithmetic Float) (speed : Float) where
    -- From each event to the next one, the recorded time at the speed of the replay.
    abbrev pub delays : ℕ → List (ReplayEvent Data) → List Float
    delays t [] = []
    delays t (e ∷ es) = float.delay_of (e.event_time_ms - t) speed ∷ delays e.event_time_ms es

    abbrev pub all_delays : List (ReplayEvent Data) → List Float
    all_delays [] = []
    all_delays (e ∷ es) = delays e.event_time_ms es

    slept-wait :
        (t : ℕ) (e : ReplayEvent Data) (es : List (ReplayEvent Data)) (c : VirtualReplayClock Float)
        → slept float (delays t (e ∷ es)) c
          ≡ slept float
              (delays e.event_time_ms es)
              (wait_until float speed e.event_time_ms (some t) c)
    unfolding wait_until sleep
    slept-wait t e es c = ground arith

    module _ (line : ReplayEvent Data → String) (sha256 : List String → String) {State : Type 0}
        (handler : ReplayEvent Data → State → Result ReplayError State) where
      -- What the handler makes of the events, one after another.
      abbrev pub handled : List (ReplayEvent Data) → State → Result ReplayError State
      handled [] s = ok s
      handled (e ∷ es) s = handler e s >>= handled es

      -- What follows an event that is handled.
      acted :
          {A : Type 0} (e : ReplayEvent Data) (es : List (ReplayEvent Data)) (s : State)
          (onward : State → Result ReplayError A) {final : State} {r : Result ReplayError A}
          → (handler e s >>= handled es) ≡ ok final
          → ((s' : State) → handled es s' ≡ ok final → onward s' ≡ r)
          → (handler e s >>= onward) ≡ r
      acted e es s onward done h = elim (Result-cases (handler e s)) [
        | inl (s', acts) ↦
            ap (λ x. x >>= onward) acts ∙ h s' (sym (ap (λ x. x >>= handled es) acts) ∙ done)
        | inr (x, raises) ↦ ground (arith, sym (ap (λ x. x >>= handled es) raises) ∙ done)
      ]

      run_events-slept :
          (t : ℕ) (es : Yielded Data) (p : Progress) (c : VirtualReplayClock Float) (s : State)
          {result : ReplayResult Float} {final : State}
          → digest_from float line sha256 es p ≡ ok result
          → handled (all_events es) s ≡ ok final
          → run_events float line sha256 handler speed (some t) es p c s
            ≡ ok (record result { speed = speed }, slept float (delays t (all_events es)) c, final)
      unfolding run_events digest_from wait_until sleep result_of
      run_events-slept t exhausted p c s digested done = ground (arith, digested, done)
      run_events-slept t (raised e) p c s digested done = ground (arith, digested)
      run_events-slept t (yielded e rest) p c s {result} {final} digested done =
          acted e (all_events rest) s
            (run_events float line sha256 handler speed (some e.event_time_ms) rest
              (progress float line sha256 e p) (wait_until float speed e.event_time_ms (some t) c))
            done
            (λ s' left.
              run_events-slept e.event_time_ms rest (progress float line sha256 e p)
                (wait_until float speed e.event_time_ms (some t) c) s' digested left
              ∙ ap (λ k. ok (record result { speed = speed }, k, final))
                  (sym (slept-wait t e (all_events rest) c)))

      -- If `digest` returns and the handler raises at none of the events, a replay at a positive speed
      -- returns what `digest` does, with its speed; the clock has then slept, in their order, for the
      -- recorded time from each event to the next divided by the speed, less the delays of nothing;
      -- and the handler has acted on the events in their order.
      pub run-Replays :
          (es : Yielded Data) (c : VirtualReplayClock Float) (s : State)
          {result : ReplayResult Float} {final : State}
          → float.is_positive speed ≡ true
          → digest_all float line sha256 es ≡ ok result
          → handled (all_events es) s ≡ ok final
          → run_replay float line sha256 handler speed es c s
            ≡ ok
                (record result { speed = speed }, slept float (all_delays (all_events es)) c, final)
      unfolding run_replay run_events digest_from wait_until result_of
      run-Replays exhausted c s positive digested done = ground (arith, positive, digested, done)
      run-Replays (raised e) c s positive digested done = ground (arith, digested)
      run-Replays (yielded e rest) c s positive digested done = rw (positive) (
          acted e (all_events rest) s
            (run_events float line sha256 handler speed (some e.event_time_ms) rest
              (progress float line sha256 e started) c)
            done
            (λ s' left.
              run_events-slept e.event_time_ms rest (progress float line sha256 e started) c s'
                digested left))

module _ {Float : Type 0} (float : Arithmetic Float) {Data : Type 0}
    (line : ReplayEvent Data → String) (sha256 : List String → String) where
  -- Two executions that agree in their counts and digests.
  abbrev Agrees :
      Result ReplayError (ReplayResult Float)
      → Result ReplayError (ReplayResult Float)
      → ReplayResult Float
      → Type 0
  Agrees first second r =
      (first ≡ ok r)
      × (r' : ReplayResult Float) × (second ≡ ok r')
      × (r'.event_count ≡ r.event_count)
      × (r'.digest ≡ r.digest)

  both_iff :
      (first second : Result ReplayError (ReplayResult Float)) (r : ReplayResult Float)
      → ((first >>= λ a. second >>= λ b. compare_results float line sha256 a b) ≡ ok r)
        ↔ Agrees first second r
  both_iff (err e) second r = (λ h. ground (arith, h), λ (h, _, _, _, _). ground (arith, h))
  both_iff (ok a) (err e) r = (λ h. ground (arith, h), λ (_, r', h, _, _). ground (arith, h))
  both_iff (ok a) (ok b) r = (
    λ h. (
      ground (arith, h),
      b,
      refl,
      ground (arith, h),
      ground (arith, h, eq_iff a.digest b.digest),
    ),
    λ (is_r, r', is_r', count, digest).
        ground (arith, is_r, is_r', count, digest, eq_iff a.digest b.digest),
  )

  -- `verify_determinism` returns a result exactly when the first execution gives it and the second
  -- gives one with the same count and the same digest.
  pub verify_determinism_iff :
      (es fs : Yielded Data) (r : ReplayResult Float)
      → (verify_determinism float line sha256 es fs ≡ ok r) ↔ (
          (digest_all float line sha256 es ≡ ok r)
          × (r' : ReplayResult Float) × (digest_all float line sha256 fs ≡ ok r')
          × (r'.event_count ≡ r.event_count)
          × (r'.digest ≡ r.digest))
  unfolding verify_determinism
  verify_determinism_iff es fs r =
      both_iff (digest_all float line sha256 es) (digest_all float line sha256 fs) r
