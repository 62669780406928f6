-- ===== src/Rest/Retry.antt =====
-- What the retries of exchange/binance_usdm/rest.py promise.
use binance_algo.Base.{
  sym, subst, ◌-◌, Bool-cases, ltb, ◌<◌, zero, ◌+◌, ◌&&◌, if◌then◌else◌, ◌⊎◌, refl, inl, inr, ℕ,
  Bool, true, false, Option, none, some, [], ◌∷◌, Result, ◌≤◌, ◌≡◌, length, All, arith,
}
use binance_algo.Rest.Client.{
  get_json_value, responded, Reaction, Trace, attempts, is_transient, response, network_error,
  end_with, RestError, retry, Reply, reaction, retry_delay,
}
use Prim.Native.Nat.{suc, min}

module _ {Body Json : Type 0} (decode : Body → Option Json) (max_attempts : ℕ) (retry_base : ℕ)
    (jitter : ℕ → ℕ) where
  retry_delay-bound :
      (attempt : ℕ) (retry_after : Option ℕ)
      → retry_delay decode max_attempts retry_base jitter attempt retry_after ≤ 60_000
  unfolding retry_delay
  retry_delay-bound attempt (some n) = min_le n
    where
      min_le : (n : ℕ) → min n 60_000 ≤ 60_000
      min_le n = omega arith
  retry_delay-bound attempt none = ground arith

  abbrev reacts : ℕ → Reply Body → Reaction Json
  reacts attempt reply = reaction decode max_attempts retry_base jitter attempt reply

  abbrev trace_of : (ℕ → Reply Body) → ℕ → ℕ → Trace → Trace
  trace_of reply left attempt t =
      (attempts decode max_attempts retry_base jitter reply left attempt t).1

  abbrev slept_once : ℕ → Trace → Trace
  slept_once delay t = record { requests = t.requests + 1; delays = delay ∷ t.delays }

  -- A retry comes before the last attempt, after a delay of a minute at most.
  unfoldable Allowed : ℕ → Reaction Json → Type 0
  Allowed attempt (retry delay) = (attempt < max_attempts) × (delay ≤ 60_000)
  Allowed attempt (end_with result) = Unit

  -- What a run of the attempts adds to its trace.
  abbrev Grown : ℕ → Trace → Trace → Type 0
  Grown left t t' =
      (t'.requests ≤ t.requests + left)
      × (All (λ delay. delay ≤ 60_000) t.delays → All (λ delay. delay ≤ 60_000) t'.delays)

  choice-Allowed :
      (transient : Bool) (attempt delay : ℕ) (result : Result (RestError Json) Json)
      → delay ≤ 60_000
      → Allowed attempt
          (if transient && ltb attempt max_attempts then retry delay else end_with result)
  unfolding Allowed
  choice-Allowed false attempt delay result h = tt
  choice-Allowed true attempt delay result h = elim (Bool-cases (ltb attempt max_attempts)) [
    | inl early ↦ rw early (ground arith, h)
    | inr late ↦ rw late tt
  ]

  responded-Allowed :
      (attempt status : ℕ) (retry_after : Option ℕ) (payload : Option Json)
      → Allowed attempt
          (responded decode max_attempts retry_base jitter attempt status retry_after payload)
  unfolding responded Allowed
  responded-Allowed attempt status retry_after none = tt
  responded-Allowed attempt status retry_after (some payload) =
      choice-Allowed (is_transient decode max_attempts retry_base jitter status) attempt _ _
        (retry_delay-bound attempt retry_after)

  reaction-Allowed : (attempt : ℕ) (reply : Reply Body) → Allowed attempt (reacts attempt reply)
  unfolding reaction
  reaction-Allowed attempt (network_error message) =
      choice-Allowed true attempt _ _ (retry_delay-bound attempt none)
  reaction-Allowed attempt (response status retry_after body) =
      responded-Allowed attempt status retry_after (decode body)

  Reaction-cases :
      (x : Reaction Json)
      → ((delay : ℕ) × (x ≡ retry delay))
        ⊎ ((result : Result (RestError Json) Json) × (x ≡ end_with result))
  Reaction-cases (retry delay) = inl (delay, refl)
  Reaction-cases (end_with result) = inr (result, refl)

  pub attempts-retry :
      (reply : ℕ → Reply Body) (left attempt : ℕ) (t : Trace) (delay : ℕ)
      → (reacts attempt (reply attempt) ≡ retry delay)
      → attempts decode max_attempts retry_base jitter reply (suc left) attempt t
        ≡ attempts decode max_attempts retry_base jitter reply left
            (attempt + 1)
            (slept_once delay t)
  unfolding attempts
  attempts-retry reply left attempt t delay h = rw (h, attempts)

  pub attempts-end_with :
      (reply : ℕ → Reply Body) (left attempt : ℕ) (t : Trace)
      (result : Result (RestError Json) Json)
      → (reacts attempt (reply attempt) ≡ end_with result)
      → attempts decode max_attempts retry_base jitter reply (suc left) attempt t
        ≡ (result, record { requests = t.requests + 1; delays = t.delays })
  unfolding attempts
  attempts-end_with reply left attempt t result h = rw (h, attempts)

  attempts-Grown :
      (reply : ℕ → Reply Body) (left attempt : ℕ) (t : Trace)
      → Grown left t (trace_of reply left attempt t)
  unfolding Allowed
  attempts-Grown reply zero attempt t = unfold attempts in (omega arith, λ h. h)
  attempts-Grown reply (suc left) attempt t =
      elim (Reaction-cases (reacts attempt (reply attempt))) [
        | inl (delay, e) ↦
            let short = (rw e at (reaction-Allowed attempt (reply attempt))).1 in
            let more = attempts-Grown reply left (attempt + 1) (slept_once delay t) in
            subst (λ run. Grown (suc left) t run.1)
              (sym (attempts-retry reply left attempt t delay e))
              (omega (arith, more.0), λ h. more.1 (short, h))
        | inr (result, e) ↦
            subst (λ run. Grown (suc left) t run.1)
              (sym (attempts-end_with reply left attempt t result e)) (omega arith, λ h. h)
      ]

  attempts-counted :
      (reply : ℕ → Reply Body) (left attempt : ℕ) (t : Trace)
      → attempt + left ≡ max_attempts
      → length t.delays ≡ t.requests
      → length (trace_of reply (suc left) attempt t).delays + 1
        ≡ (trace_of reply (suc left) attempt t).requests
  unfolding Allowed
  attempts-counted reply zero attempt t last h =
      elim (Reaction-cases (reacts attempt (reply attempt))) [
        | inl (delay, e) ↦
            let early = (rw e at (reaction-Allowed attempt (reply attempt))).0 in ground arith
        | inr (result, e) ↦
            rw (attempts-end_with reply zero attempt t result e, trace_of) (omega arith)
      ]
  attempts-counted reply (suc left) attempt t last h =
      elim (Reaction-cases (reacts attempt (reply attempt))) [
        | inl (delay, e) ↦
            rw (attempts-retry reply (suc left) attempt t delay e, trace_of)
              (attempts-counted reply left (attempt + 1) (slept_once delay t) (omega arith)
                (omega arith))
        | inr (result, e) ↦
            rw (attempts-end_with reply (suc left) attempt t result e, trace_of) (omega arith)
      ]

  abbrev fetched : (ℕ → Reply Body) → Result (RestError Json) Json × Trace
  fetched reply = get_json_value decode max_attempts retry_base jitter reply

  -- Whatever the replies, if one attempt is allowed, a call makes at least one request and no more
  -- than the attempts allowed, sleeps once between two requests, and never longer than a minute.
  pub get_json_value-bounded :
      (reply : ℕ → Reply Body)
      → 0 < max_attempts
      → let t = (fetched reply).1 in
        (0 < t.requests)
        × ((t.requests ≤ max_attempts)
            × ((length t.delays + 1 ≡ t.requests) × All (λ delay. delay ≤ 60_000) t.delays))
  unfolding get_json_value
  get_json_value-bounded reply some_attempt =
      let start : Trace = record { requests = 0; delays = [] } in
      let grown = attempts-Grown reply max_attempts 1 start in
      let counted = attempts-counted reply (max_attempts - 1) 1 start (omega arith) refl in
      let whole : suc (max_attempts - 1) ≡ max_attempts = omega arith in
      let slept = rw whole at counted in
      (omega arith, (omega (arith, grown.0), (slept, grown.1 tt)))
