-- ===== src/Sockets/Session.antt =====
-- `RoutedPublicWebSocket.run` of exchange/binance_usdm/websocket.py: connections one after another,
-- with a pause before each new one.
use binance_algo.Base.{
  ℕ, String, Bool, true, Option, none, some, List, [], ◌∷◌, ◌++◌, Result, ok, err, ◌+◌, ◌*◌, ◌^◌,
  ◌-◌, leb, ◌==◌, if◌then◌else◌,
}
use binance_algo.Sockets.Client.{
  raised, Failure, Socket, SocketError, Turn, Ending, Action, receive, queue_saturated, cancelled,
  waiting, ceiling_overflow,
}
use Prim.Native.Nat.{min}
use binance_algo.Transaction.{raise, modify, ◌>>◌}
use binance_algo.Streams.Json.{StreamError}
use binance_algo.Streams.Parsers.{Receipt}
use binance_algo.Recorder.Sequence.{StreamEvent}

-- One turn of the loop of `run`: `stop_event` at its head and after the connection, what the
-- connection gives, the readings of the clocks, and what the jitter makes of a ceiling.
pub record Attempt : Type 0 where
  pub stopped : Bool
  pub connection_id : String
  pub opened_at_ns : ℕ
  pub refused : Option Failure
  pub turns : List Turn
  pub elapsed_ns : ℕ
  pub closed_at_ns : ℕ
  pub stopped_after : Bool
  pub jitter : ℕ → ℕ

-- The configuration of the client; `message` is the type's name and `str` of an exception.
pub record Settings : Type 0 where
  pub capacity : ℕ
  pub connection_max_ns : ℕ
  pub stable_after_ns : ℕ
  pub reconnect_base_ns : ℕ
  pub reconnect_max_ns : ℕ
  pub message : SocketError → String

-- `min(reconnect_max, reconnect_base * 2 ** max(0, attempt - 1))`; the base is a float64, and a factor
-- from 2 ** 1024 on is no float64: OverflowError.
unfoldable pub ceiling_of : Settings → ℕ → Option ℕ
ceiling_of c attempt =
    if leb 1025 attempt
    then none
    else some (min c.reconnect_max_ns (c.reconnect_base_ns * 2 ^ (attempt - 1)))

-- `self._jitter(ceiling) if ceiling else 0.0`
abbrev pub delay_of : (ℕ → ℕ) → ℕ → ℕ
delay_of jitter ceiling = if ceiling == 0 then 0 else jitter ceiling

abbrev pub is_stable : Settings → Attempt → Bool
is_stable c a = leb c.stable_after_ns a.elapsed_ns

abbrev pub next_attempt : Settings → Attempt → ℕ → ℕ
next_attempt c a attempt = if is_stable c a then 0 else attempt + 1

module _ {Event : Type 0} (view : Event → StreamEvent)
    (parse : Receipt → String → Result StreamError (Option Event)) (c : Settings) where
  abbrev pub connect : Option Failure → Action view c.capacity (Unit {0})
  connect (some e) = raise (raised e)
  connect none = modify (λ s. record s { connections = s.connections + 1 })

  -- The body of the `try`.
  abbrev pub connected : Attempt → Action view c.capacity Ending
  connected a = do connect a.refused; receive view c.capacity parse c.connection_max_ns a.turns

  -- The record that `finally` appends.
  abbrev pub leave_connection : Attempt → String → Socket Event → Socket Event
  leave_connection a reason s = record s {
    disconnects =
        s.disconnects
        ++ (record {
          connection_id = a.connection_id;
          opened_at_ns = a.opened_at_ns;
          closed_at_ns = a.closed_at_ns;
          reason = reason;
          stable = is_stable c a;
        }
            ∷ []);
  }

  -- The `except` clauses with `finally`; a connection without a further turn stays open.
  abbrev pub close_attempt :
      Attempt → Result SocketError Ending × Socket Event → Result SocketError Ending × Socket Event
  close_attempt a (ok waiting, s) = (ok waiting, s)
  close_attempt a (ok Ending.stopped, s) =
      (ok Ending.stopped, leave_connection a "normal shutdown" s)
  close_attempt a (err queue_saturated, s) = (
    err queue_saturated,
    leave_connection a "bounded recorder queue saturated"
        (record s { queue_saturated = true; last_error = some "bounded recorder queue saturated" }),
  )
  close_attempt a (err cancelled, s) = (err cancelled, leave_connection a "task cancelled" s)
  close_attempt a (err e, s) = (
    ok Ending.stopped,
    leave_connection a (c.message e) (record s { last_error = some (c.message e) }),
  )

  -- One connection, from its opening to its record.
  unfoldable pub attempt_once : Attempt → Action view c.capacity Ending
  unfolding receive
  attempt_once a s = close_attempt a (connected a s)

  abbrev pub counted : Socket Event → Socket Event
  counted s = record s { reconnects = s.reconnects + 1 }

  -- `asyncio.wait_for(stop_event.wait(), timeout=delay)`
  abbrev pub waited : Attempt → ℕ → Socket Event → Socket Event
  waited a ceiling s = record s { pauses = s.pauses ++ (delay_of a.jitter ceiling ∷ []) }

  abbrev pub pause_for :
      Attempt → Action view c.capacity Ending → Option ℕ → Action view c.capacity Ending
  pause_for a later none s = (err ceiling_overflow, s)
  pause_for a later (some ceiling) s = later (waited a ceiling s)

  -- The counter and the pause before the next connection.
  abbrev pub pause : Attempt → Action view c.capacity Ending → ℕ → Action view c.capacity Ending
  pause a later attempt s = pause_for a later (ceiling_of c attempt) (counted s)

  -- What follows a connection: an error is raised, and a stop ends the loop.
  abbrev pub onward :
      Attempt
      → Action view c.capacity Ending
      → ℕ
      → Result SocketError Ending × Socket Event
      → Result SocketError Ending × Socket Event
  onward a later attempt (ok waiting, s) = (ok waiting, s)
  onward a later attempt (ok Ending.stopped, s) =
      if a.stopped_after then (ok Ending.stopped, s) else pause a later attempt s
  onward a later attempt (err e, s) = (err e, s)

  -- `run`, with the number of failed attempts in a row.
  unfoldable pub run_from : ℕ → List Attempt → Action view c.capacity Ending
  unfolding attempt_once ceiling_of
  run_from attempt [] s = (ok waiting, s)
  run_from attempt (a ∷ rest) s =
      let next = next_attempt c a attempt in
      let later = run_from next rest in
      if a.stopped then (ok Ending.stopped, s) else onward a later next (attempt_once a s)

  abbrev pub run_client : List Attempt → Action view c.capacity Ending
  run_client = run_from 0
