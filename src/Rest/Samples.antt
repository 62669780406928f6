-- ===== src/Rest/Samples.antt =====
-- Sample replies for exchange/binance_usdm/rest.py, and the theorems on them.
use binance_algo.Base.{
  ltb, ◌==◌, if◌then◌else◌, ◌+◌, ◌<◌, zero, suc, refl, ℕ, Option, none, some, ok, ◌≤◌, ◌≡◌, length,
  All, arith,
}
use binance_algo.Rest.Client.{response, network_error, Reply, get_json_value}
use binance_algo.Rest.Retry.{get_json_value-bounded}
use binance_algo.Rest.Verdict.{get_json_value-answered, verdict}

-- Bodies are numbers, and 0 is not JSON.
abbrev decoded : ℕ → Option ℕ
decoded zero = none
decoded (suc n) = some n

abbrev up_to_100 : ℕ → ℕ
up_to_100 n = if ltb n 100 then n else 100

-- An error of the network, a rate limit with its `Retry-After`, and then the payload.
abbrev replies : ℕ → Reply ℕ
replies n =
    if n == 1
    then network_error "reset"
    else if n == 2
    then response 429 (some 90_000) 5
    else response 200 none 8

get_json_value-bounded_example :
    let t = (get_json_value decoded 3 250 up_to_100 replies).1 in
    (0 < t.requests)
    × ((t.requests ≤ 3)
        × ((length t.delays + 1 ≡ t.requests) × All (λ delay. delay ≤ 60_000) t.delays))
get_json_value-bounded_example =
    get_json_value-bounded decoded 3 250 up_to_100 replies (omega arith)

unsettled : (i : ℕ) → i < 2 → verdict decoded 3 250 up_to_100 (replies (1 + i)) ≡ none
unfolding verdict
unsettled zero below = refl
unsettled (suc zero) below = refl
unsettled (suc (suc i)) below = ground arith

get_json_value-answered_example :
    let run = get_json_value decoded 3 250 up_to_100 replies in
    (run.0 ≡ ok 7) × (run.1.requests ≡ 3)
unfolding verdict
get_json_value-answered_example =
    get_json_value-answered decoded 3 250 up_to_100 replies 2 (ok 7) (omega arith) unsettled refl
