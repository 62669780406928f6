-- ===== src/Rest/Verdict.antt =====
-- The retries of exchange/binance_usdm/rest.py against the replies that are worth a retry.
use binance_algo.Base.{
  zero, sym, subst, ◌+◌, ltb, ◌&&◌, leb, ◌||◌, ◌==◌, if◌then◌else◌, ◌<◌, refl, ℕ, Option, none,
  some, [], ◌∷◌, Result, ok, err, ◌≡◌, arith,
}
use binance_algo.Rest.Retry.{attempts-retry, attempts-end_with}
use Prim.Native.Nat.{suc}
use binance_algo.Rest.Client.{
  attempts, get_json_value, Trace, retry_delay, api_error, response, retry, end_with, network_error,
  invalid_payload, responded, RestError, Reply, reaction,
}

module _ {Body Json : Type 0} (decode : Body → Option Json) (max_attempts : ℕ) (retry_base : ℕ)
    (jitter : ℕ → ℕ) where
  abbrev payload_verdict : ℕ → Option Json → Option (Result (RestError Json) Json)
  payload_verdict status none = some (err invalid_payload)
  payload_verdict status (some payload) =
      if status == 429 || (leb 500 status && ltb status 600)
      then none
      else if leb 400 status
      then some (err (api_error status payload))
      else some (ok payload)

  -- What a reply settles, whichever attempt it answers: nothing, where it is worth a retry.
  unfoldable pub verdict : Reply Body → Option (Result (RestError Json) Json)
  verdict (network_error message) = none
  verdict (response status retry_after body) = payload_verdict status (decode body)

  verdict-none-responded :
      (attempt status : ℕ) (retry_after : Option ℕ) (payload : Option Json)
      → attempt < max_attempts
      → payload_verdict status payload ≡ none
      → (delay : ℕ) × (responded decode max_attempts retry_base jitter attempt status retry_after
            payload
          ≡ retry delay)
  unfolding responded
  verdict-none-responded attempt status retry_after none early h = ground arith
  verdict-none-responded attempt status retry_after (some payload) early h =
      (retry_delay decode max_attempts retry_base jitter attempt retry_after, ground arith)

  verdict-none :
      (attempt : ℕ) (r : Reply Body)
      → attempt < max_attempts
      → verdict r ≡ none
      → (delay : ℕ) × (reaction decode max_attempts retry_base jitter attempt r ≡ retry delay)
  unfolding verdict reaction
  verdict-none attempt (network_error message) early h =
      (retry_delay decode max_attempts retry_base jitter attempt none, ground arith)
  verdict-none attempt (response status retry_after body) early h =
      verdict-none-responded attempt status retry_after (decode body) early h

  verdict-some-responded :
      (attempt status : ℕ) (retry_after : Option ℕ) (payload : Option Json)
      (result : Result (RestError Json) Json)
      → payload_verdict status payload ≡ some result
      → responded decode max_attempts retry_base jitter attempt status retry_after payload
        ≡ end_with result
  unfolding responded
  verdict-some-responded attempt status retry_after none result h = ground arith
  verdict-some-responded attempt status retry_after (some payload) result h = ground arith

  verdict-some :
      (attempt : ℕ) (r : Reply Body) (result : Result (RestError Json) Json)
      → verdict r ≡ some result
      → reaction decode max_attempts retry_base jitter attempt r ≡ end_with result
  unfolding verdict reaction
  verdict-some attempt (network_error message) result h = ground arith
  verdict-some attempt (response status retry_after body) result h =
      verdict-some-responded attempt status retry_after (decode body) result h

  -- A run answers with a result after a number of further requests.
  abbrev Answers :
      Trace → ℕ → Result (RestError Json) Json → Result (RestError Json) Json × Trace → Type 0
  Answers t more result run = (run.0 ≡ result) × (run.1.requests ≡ t.requests + more)

  attempts-answered :
      (reply : ℕ → Reply Body) (k left attempt : ℕ) (t : Trace)
      (result : Result (RestError Json) Json)
      → k < left
      → attempt + left ≡ max_attempts + 1
      → ((i : ℕ) → i < k → verdict (reply (attempt + i)) ≡ none)
      → verdict (reply (attempt + k)) ≡ some result
      → Answers t
          (k + 1)
          result
          (attempts decode max_attempts retry_base jitter reply left attempt t)
  attempts-answered reply k zero attempt t result enough last settled answer = ground arith
  attempts-answered reply zero (suc left) attempt t result enough last settled answer =
      let now : attempt + 0 ≡ attempt = omega arith in
      subst (Answers t 1 result)
        (sym (
          attempts-end_with decode max_attempts retry_base jitter reply left attempt t result
            (verdict-some attempt (reply attempt) result (rw now at answer))))
        (refl, refl)
  attempts-answered reply (suc k) (suc left) attempt t result enough last unsettled answer =
      let now : attempt + 0 ≡ attempt = omega arith in
      let first = rw now at (unsettled 0 (omega arith)) in
      let (delay, retried) = verdict-none attempt (reply attempt) (omega arith) first in
      let start : Trace = record { requests = t.requests + 1; delays = delay ∷ t.delays } in
      let (same, count) =
        attempts-answered reply k left (attempt + 1) start result (omega arith) (omega arith)
          (λ i below. rw (shift i) (unsettled (suc i) (omega arith))) (rw (shift k) answer) in
      subst (Answers t (suc k + 1) result)
        (sym
          (attempts-retry decode max_attempts retry_base jitter reply left attempt t delay retried))
        (same, omega (arith, count))
    where
      shift : (i : ℕ) → attempt + 1 + i ≡ attempt + suc i
      shift i = omega arith

  -- If a reply within the allowed attempts settles the request and all replies before it are worth a
  -- retry, the call makes exactly the requests up to that reply and ends with what it settles.
  pub get_json_value-answered :
      (reply : ℕ → Reply Body) (k : ℕ) (result : Result (RestError Json) Json)
      → k < max_attempts
      → ((i : ℕ) → i < k → verdict (reply (1 + i)) ≡ none)
      → verdict (reply (1 + k)) ≡ some result
      → Answers
          (record { requests = 0; delays = [] })
          (k + 1)
          result
          (get_json_value decode max_attempts retry_base jitter reply)
  unfolding get_json_value
  get_json_value-answered reply k result enough unsettled answer =
      attempts-answered reply k max_attempts 1 _ result enough (omega arith) unsettled answer
