-- ===== src/Sockets/Client.antt =====
-- `_enqueue`, `_observe` and `_receive` of exchange/binance_usdm/websocket.py. Times are in
-- nanoseconds. What the event loop and the peer do is the input of each turn of the loop.
use binance_algo.Base.{
  ℕ, zero, suc, String, Bool, true, false, Option, none, some, List, [], ◌∷◌, ◌++◌, Result, ok, err,
  ◌+◌, ltb, leb, length, if◌then◌else◌,
}
use Prim.Native.Nat.{max}
use binance_algo.Transaction.{Exec, pure, raise, modify, raise_if, ◌>>◌}
use binance_algo.Streams.Json.{StreamError}
use binance_algo.Streams.Parsers.{Receipt}
use binance_algo.Recorder.Sequence.{StreamEvent, Observed, observe}

-- QueueSaturatedError, `asyncio.CancelledError`, the errors that WebSocketStreamError stands for, and
-- those of the parser and of aiohttp.
pub data SocketError : Type 0 where
  ceiling_overflow : SocketError
  queue_saturated cancelled stale rotation : SocketError
  remote_close receive_error : SocketError
  unsupported_frame client_error : String → SocketError
  contract_error : StreamError → SocketError

pub record DisconnectRecord : Type 0 where
  pub connection_id : String
  pub opened_at_ns : ℕ
  pub closed_at_ns : ℕ
  pub reason : String
  pub stable : Bool

-- The queue with the events that its consumer has taken from it, in order; the statistics of the
-- route; RecorderHealthState; and the bounds of the pauses between connections.
pub record Socket (Event : Type 0) : Type 0 where
  pub queue : List Event
  pub taken : List Event
  pub observed : Observed
  pub connections : ℕ
  pub reconnects : ℕ
  pub disconnects : List DisconnectRecord
  pub dropped_events : ℕ
  pub queue_peak : ℕ
  pub queue_saturated : Bool
  pub last_error : Option String
  pub last_event_ns : Option ℕ
  pub pauses : List ℕ

-- What aiohttp and asyncio raise: a ClientError by its text, or CancelledError.
pub data Failure : Type 0 where
  client_failure : String → Failure
  cancellation : Failure

abbrev pub raised : Failure → SocketError
raised (client_failure text) = client_error text
raised cancellation = cancelled

-- What `websocket.receive` gives, or raises.
pub data Message : Type 0 where
  text_frame : Receipt → String → Message
  ping pong close closed closing error_frame timed_out : Message
  other_frame : String → Message
  raises : Failure → Message

-- One turn of the loop: `stop_event`, the age of the connection, the message, how many events the
-- consumer takes until `put` ends, and the clock when the event is marked.
pub record Turn : Type 0 where
  pub stopped : Bool
  pub age_ns : ℕ
  pub message : Message
  pub served : ℕ
  pub marked_at_ns : ℕ

-- `_receive` returns when it is stopped; without a further turn it waits.
pub data Ending : Type 0 where
  stopped waiting : Ending

-- An event is known by the fields that `_observe` reads.
module _ {Event : Type 0} (view : Event → StreamEvent) (capacity : ℕ) where
  abbrev pub Action : Type 0 → Type 0
  Action = Exec (Socket Event) SocketError

  abbrev pub take_first : List Event → Socket Event → Socket Event
  take_first [] s = s
  take_first (e ∷ es) s = record s { queue = es; taken = s.taken ++ (e ∷ []) }

  -- `queue.get` of the consumer, as often as it comes to.
  unfoldable pub serve : ℕ → Socket Event → Socket Event
  serve zero s = s
  serve (suc n) s = serve n (take_first s.queue s)

  abbrev pub put : Event → Socket Event → Socket Event
  put e s = record s {
    queue = s.queue ++ (e ∷ []);
    queue_peak = max s.queue_peak (length s.queue + 1);
  }

  abbrev pub put_or_drop : Event → Bool → Action (Unit {0})
  put_or_drop e true s = (ok tt, put e s)
  put_or_drop e false s = (err queue_saturated, record s { dropped_events = s.dropped_events + 1 })

  -- `_enqueue`: `put` waits for a place, and has one if the consumer takes enough until the timeout.
  unfoldable pub enqueue : Event → ℕ → Action (Unit {0})
  unfolding serve
  enqueue e served s = let s' = serve served s in put_or_drop e (ltb (length s'.queue) capacity) s'

  -- `_observe`
  unfoldable pub observe_event : Event → ℕ → Action (Unit {0})
  unfolding observe
  observe_event e now =
      modify (λ s. record s { observed = observe (view e) s.observed; last_event_ns = some now })

  module _ (parse : Receipt → String → Result StreamError (Option Event)) where
    abbrev pub accept : Turn → Result StreamError (Option Event) → Action (Unit {0})
    accept t (err e) = raise (contract_error e)
    accept t (ok none) = pure tt
    accept t (ok (some e)) = do enqueue e t.served; observe_event e t.marked_at_ns

    -- The reaction to a message.
    unfoldable pub handle : Turn → Message → Action (Unit {0})
    unfolding enqueue observe_event
    handle t (text_frame receipt text) = accept t (parse receipt text)
    handle t ping = pure tt
    handle t pong = pure tt
    handle t close = raise remote_close
    handle t closed = raise remote_close
    handle t closing = raise remote_close
    handle t error_frame = raise receive_error
    handle t timed_out = raise stale
    handle t (other_frame name) = raise (unsupported_frame name)
    handle t (raises e) = raise (raised e)

    -- `_receive`
    unfoldable pub receive : ℕ → List Turn → Action Ending
    receive connection_max [] = pure waiting
    receive connection_max (t ∷ ts) = if t.stopped then pure Ending.stopped else (do
      raise_if (leb connection_max t.age_ns) rotation
      handle t t.message
      receive connection_max ts)
