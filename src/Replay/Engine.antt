-- ===== src/Replay/Engine.antt =====
-- `stream`, `run`, `digest` and `verify_determinism` of data/replay.py. What the code computes on
-- float64 is a record of operations.
use binance_algo.Base.{
  ℕ, String, Bool, Option, none, some, List, [], ◌∷◌, ◌++◌, Result, ok, err, ◌+◌, ◌-◌, ◌==◌, ◌||◌,
  if◌then◌else◌, not, str_eq,
}
use binance_algo.Replay.Events.{
  ReplayEvent, ReplayError, Yielded, exhausted, raised, yielded, bad_speed, not_deterministic,
  ◌>>=◌,
}

-- What the code computes on float64: `ms / 1_000 / speed`, the tests `> 0` and `bool`, the sum, and 0.0.
pub record Arithmetic (Float : Type 0) : Type 0 where
  pub delay_of : ℕ → Float → Float
  pub is_positive : Float → Bool
  pub is_zero : Float → Bool
  pub add : Float → Float → Float
  pub zero : Float

-- VirtualReplayClock
pub record VirtualReplayClock (Float : Type 0) : Type 0 where
  pub elapsed_seconds : Float
  pub sleep_calls : ℕ

-- ReplayResult
pub record ReplayResult (Float : Type 0) : Type 0 where
  pub event_count : ℕ
  pub digest : String
  pub first_event_time_ms : Option ℕ
  pub last_event_time_ms : Option ℕ
  pub speed : Float

-- What the loops keep: the lines that the digest was updated with, and the local variables.
pub record Progress : Type 0 where
  pub lines : List String
  pub count : ℕ
  pub first : Option ℕ
  pub last : Option ℕ

abbrev pub started : Progress
started = record { lines = []; count = 0; first = none; last = none }

module _ {Float : Type 0} (float : Arithmetic Float) where
  -- `sleep` of the clock; a delay is never negative.
  unfoldable pub sleep : Float → VirtualReplayClock Float → VirtualReplayClock Float
  sleep seconds c = record {
    elapsed_seconds = float.add c.elapsed_seconds seconds;
    sleep_calls = c.sleep_calls + 1;
  }

  -- `delay = max(0.0, …)`, and `if delay: await clock.sleep(delay)`: a time before the last one is
  -- no delay.
  unfoldable pub wait_until :
      Float → ℕ → Option ℕ → VirtualReplayClock Float → VirtualReplayClock Float
  unfolding sleep
  wait_until speed time none c = c
  wait_until speed time (some previous) c =
      let delay = float.delay_of (time - previous) speed in
      if float.is_zero delay then c else sleep delay c

-- `line` is the text that `_update_digest` hashes for an event; `sha256` is the digest of the lines.
module _ {Float : Type 0} (float : Arithmetic Float) {Data : Type 0}
    (line : ReplayEvent Data → String) (sha256 : List String → String) where
  abbrev first_or : Option ℕ → ℕ → Option ℕ
  first_or none t = some t
  first_or (some s) t = some s

  -- `_update_digest`, the count, and the first and the last time.
  unfoldable pub progress : ReplayEvent Data → Progress → Progress
  progress e p = record {
    lines = p.lines ++ (line e ∷ []);
    count = p.count + 1;
    first = first_or p.first e.event_time_ms;
    last = some e.event_time_ms;
  }

  unfoldable pub result_of : Float → Progress → ReplayResult Float
  result_of speed p = record {
    event_count = p.count;
    digest = sha256 p.lines;
    first_event_time_ms = p.first;
    last_event_time_ms = p.last;
    speed = speed;
  }

  -- The loop of `digest`.
  unfoldable pub digest_from : Yielded Data → Progress → Result ReplayError (ReplayResult Float)
  unfolding progress result_of
  digest_from exhausted p = ok (result_of float.zero p)
  digest_from (raised e) p = err e
  digest_from (yielded e rest) p = digest_from rest (progress e p)

  abbrev pub digest_all : Yielded Data → Result ReplayError (ReplayResult Float)
  digest_all es = digest_from es started

  abbrev pub compare_results :
      ReplayResult Float → ReplayResult Float → Result ReplayError (ReplayResult Float)
  compare_results first second =
      if not (first.event_count == second.event_count) || not (str_eq first.digest second.digest)
      then err not_deterministic
      else ok first

  -- `verify_determinism`, with what the two executions of the query yield.
  unfoldable pub verify_determinism :
      Yielded Data → Yielded Data → Result ReplayError (ReplayResult Float)
  unfolding digest_from
  verify_determinism es fs = do
    first ← digest_all es
    second ← digest_all fs
    compare_results first second

  -- A handler acts on a state of its own, and may raise.
  module _ {State : Type 0} (handler : ReplayEvent Data → State → Result ReplayError State) where
    -- The loop of `run` over `stream`; `previous` is the time of the event before.
    unfoldable pub run_events :
        Float
        → Option ℕ
        → Yielded Data
        → Progress
        → VirtualReplayClock Float
        → State
        → Result ReplayError (ReplayResult Float × VirtualReplayClock Float × State)
    unfolding wait_until progress result_of
    run_events speed previous exhausted p c s = ok (result_of speed p, c, s)
    run_events speed previous (raised e) p c s = err e
    run_events speed previous (yielded e rest) p c s =
        handler e s
        >>= run_events speed (some e.event_time_ms) rest (progress e p)
            (wait_until float speed e.event_time_ms previous c)

    -- `run`
    unfoldable pub run_replay :
        Float
        → Yielded Data
        → VirtualReplayClock Float
        → State
        → Result ReplayError (ReplayResult Float × VirtualReplayClock Float × State)
    unfolding run_events
    run_replay speed es c s =
        if float.is_positive speed then run_events speed none es started c s else err bad_speed
