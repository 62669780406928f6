-- ===== src/Rest/Client.antt =====
-- `_get_json_value`, `_retry_delay` and `_decode_payload` of exchange/binance_usdm/rest.py. Times are in
-- milliseconds; the session answers each request with a reply, or an error of the network.
use binance_algo.Base.{
  ◌-◌, ◌^◌, ◌*◌, ltb, zero, ◌&&◌, leb, ◌||◌, suc, if◌then◌else◌, ◌+◌, ◌==◌, ℕ, String, Bool, Option,
  none, some, List, [], ◌∷◌, Result, ok, err,
}
use Prim.Native.Nat.{min}

-- What one `session.get` gives: `retry_after` is the value of the header where it is a number.
pub data Reply (Body : Type 0) : Type 0 where
  network_error : String → Reply Body
  response : ℕ → Option ℕ → Body → Reply Body

-- BinanceResponseError, BinanceAPIError and BinanceNetworkError.
pub data RestError (Json : Type 0) : Type 0 where
  invalid_payload : RestError Json
  api_error : ℕ → Json → RestError Json
  network_failure : ℕ → String → RestError Json

-- The requests made, and the delays slept, the last one first.
pub record Trace : Type 0 where
  pub requests : ℕ
  pub delays : List ℕ

-- The reaction to a reply: sleep for a delay and go on, or end with a result.
pub data Reaction (Json : Type 0) : Type 0 where
  retry : ℕ → Reaction Json
  end_with : Result (RestError Json) Json → Reaction Json

-- `decode` is `orjson.loads`, with the test that the value is an object or an array; `jitter` draws a
-- delay up to its argument.
module _ {Body Json : Type 0} (decode : Body → Option Json) (max_attempts : ℕ) (retry_base : ℕ)
    (jitter : ℕ → ℕ) where
  -- `_retry_delay`
  unfoldable pub retry_delay : ℕ → Option ℕ → ℕ
  retry_delay attempt (some retry_after) = min retry_after 60_000
  retry_delay attempt none =
      let delay = retry_base * 2 ^ (attempt - 1) + jitter retry_base in
      if ltb delay 60_000 then delay else 60_000

  -- `response.status == 429 or 500 <= response.status < 600`
  abbrev pub is_transient : ℕ → Bool
  is_transient status = status == 429 || (leb 500 status && ltb status 600)

  -- What a reply comes to when it is not retried.
  abbrev pub answered : ℕ → Json → Result (RestError Json) Json
  answered status payload = if leb 400 status then err (api_error status payload) else ok payload

  abbrev requested : Trace → Trace
  requested t = record t { requests = t.requests + 1 }

  abbrev slept : ℕ → Trace → Trace
  slept delay t = record t { delays = delay ∷ t.delays }

  -- The reaction to a response with its decoded payload.
  unfoldable pub responded : ℕ → ℕ → Option ℕ → Option Json → Reaction Json
  responded attempt status retry_after none = end_with (err invalid_payload)
  responded attempt status retry_after (some payload) =
      if is_transient status && ltb attempt max_attempts
      then retry (retry_delay attempt retry_after)
      else end_with (answered status payload)

  unfoldable pub reaction : ℕ → Reply Body → Reaction Json
  reaction attempt (network_error message) =
      if ltb attempt max_attempts
      then retry (retry_delay attempt none)
      else end_with (err (network_failure max_attempts message))
  reaction attempt (response status retry_after body) =
      responded attempt status retry_after (decode body)

  -- The attempts that are left, from one with its number.
  unfoldable pub attempts : (ℕ → Reply Body) → ℕ → ℕ → Trace → Result (RestError Json) Json × Trace
  attempts reply zero attempt t = (err (network_failure max_attempts ""), t)
  attempts reply (suc left) attempt t = elim (reaction attempt (reply attempt)) [
    | retry delay ↦ attempts reply left (attempt + 1) (slept delay (requested t))
    | end_with result ↦ (result, requested t)
  ]

  unfoldable pub get_json_value : (ℕ → Reply Body) → Result (RestError Json) Json × Trace
  get_json_value reply = attempts reply max_attempts 1 (record { requests = 0; delays = [] })
