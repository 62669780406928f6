-- ===== src/Sockets/Reconnects.antt =====
-- `run` of exchange/binance_usdm/websocket.py over its connections: no event is lost in silence, every
-- connection leaves its record, and the pauses are bounded.
use binance_algo.Base.{
  ap, Bool, false, leb, ◌||◌, if◌then◌else◌, subst, ℕ, String, Option, none, some, List, [], ◌∷◌,
  ◌++◌, Result, ok, err, ◌≤◌, length, ◌≡◌, arith, sym, ◌∙◌,
}
use binance_algo.Sockets.Reception.{
  Matches, Verdict, keeps, ends, cancels, closing, arrived, dropped,
}
use binance_algo.Sockets.Session.{counted, Attempt, Settings, next_attempt}
use binance_algo.Sockets.Client.{
  Socket, SocketError, Ending, Failure, queue_saturated, waiting, client_failure, cancellation,
}
use mathlib.Core.List.{append_assoc, append-nil}
use binance_algo.Streams.Json.{StreamError}
use binance_algo.Streams.Parsers.{Receipt}
use binance_algo.Recorder.Sequence.{StreamEvent}
use binance_algo.Sockets.Lossless.{Extends, Extends-trans}

module _ {Event : Type 0} (view : Event → StreamEvent)
    (parse : Receipt → String → Result StreamError (Option Event)) (c : Settings) where
  -- Fields that closing a connection leaves alone.
  abbrev SameQueue : Socket Event → Socket Event → Type 0
  SameQueue s t = (t.queue ≡ s.queue) × (t.taken ≡ s.taken) × (t.dropped_events ≡ s.dropped_events)

  same_queue :
      {s t u : Socket Event} {fresh : List Event} {n : ℕ}
      → SameQueue t u
      → Extends c.capacity s fresh n t
      → Extends c.capacity s fresh n u
  same_queue (q, k, d) x = record {
    in_order = rw (k, q) x.in_order;
    counted = d ∙ x.counted;
    bounded = λ h. subst (λ l. length l ≤ c.capacity) (sym q) (x.bounded h);
  }

  -- The events that arrive on a connection, and how it ends.
  abbrev pub delivered : Option Failure → Attempt → List Event
  delivered none a = arrived view c.capacity parse c.connection_max_ns a.turns
  delivered (some failure) a = []

  abbrev pub verdict_on : Option Failure → Attempt → Verdict
  verdict_on none a = closing view c.capacity parse c.connection_max_ns a.turns
  verdict_on (some (client_failure text)) a = ends
  verdict_on (some cancellation) a = cancels

  abbrev over_and_on : Verdict → Bool → List Event → List Event
  over_and_on ends false es = es
  over_and_on _ _ es = []

  -- The events that arrive on the connections, one after another: no connection follows a stop, a
  -- cancelled task or a connection that is still open, nor a pause that cannot be computed.
  abbrev pub arrivals : ℕ → List Attempt → List Event
  arrivals attempt [] = []
  arrivals attempt (a ∷ rest) =
      let next = next_attempt c a attempt in
      let later = arrivals next rest in
      if a.stopped
      then []
      else delivered a.refused a
        ++ over_and_on (verdict_on a.refused a) (a.stopped_after || leb 1025 next) later

  -- What joined the queue is what arrived, in its order, and all of it unless an event is dropped, which
  -- is the first that the queue had no place for, and is counted.
  pub record IsLosslessRun (events : List Event) (s : Socket Event)
      (p : Result SocketError Ending × Socket Event) : Type 0 where
    pub fresh : List Event
    pub rest : List Event
    pub first : events ≡ fresh ++ rest
    pub complete : dropped p.0 ≡ 0 → rest ≡ []
    pub extends : Extends c.capacity s fresh (dropped p.0) p.1

  record Once (a : Attempt) (refused : Option Failure) (s : Socket Event)
      (p : Result SocketError Ending × Socket Event) : Type 0 where
    pub fresh : List Event
    pub rest : List Event
    pub first : delivered refused a ≡ fresh ++ rest
    pub complete : dropped p.0 ≡ 0 → rest ≡ []
    pub verdict : Matches (verdict_on refused a) p.0
    pub extends : Extends c.capacity s fresh (dropped p.0) p.1

  -- After `except` and `finally` only these are left.
  abbrev Closes : Verdict → Result SocketError Ending → Type 0
  Closes v (ok waiting) = v ≡ keeps
  Closes v (ok Ending.stopped) = v ≡ ends
  Closes v (err queue_saturated) = Unit
  Closes v (err e) = v ≡ cancels

  record OnceClosed (a : Attempt) (s : Socket Event) (p : Result SocketError Ending × Socket Event)
      : Type 0 where
    pub fresh : List Event
    pub rest : List Event
    pub first : delivered a.refused a ≡ fresh ++ rest
    pub complete : dropped p.0 ≡ 0 → rest ≡ []
    pub verdict : Closes (verdict_on a.refused a) p.0
    pub extends : Extends c.capacity s fresh (dropped p.0) p.1

  -- One connection, and a run from a state with the same queue.
  joined :
      (a : Attempt) {more : List Event} {s : Socket Event}
      (p : Result SocketError Ending × Socket Event) {u : Socket Event}
      {r : Result SocketError Ending × Socket Event}
      → OnceClosed a s p
      → dropped p.0 ≡ 0
      → SameQueue p.1 u
      → IsLosslessRun more u r
      → IsLosslessRun (delivered a.refused a ++ more) s r
  joined a {more} p x none_dropped same y =
      let z = Extends-trans (same_queue same x.extends) y.extends in
      record {
        fresh = x.fresh ++ y.fresh;
        rest = y.rest;
        first =
            ap (λ l. l ++ more) x.first
            ∙ ap (λ l. (x.fresh ++ l) ++ more) (x.complete none_dropped)
            ∙ ap (λ l. l ++ more) (append-nil x.fresh)
            ∙ ap (λ l. x.fresh ++ l) y.first
            ∙ sym (append_assoc x.fresh y.fresh y.rest);
        complete = y.complete;
        extends = record {
          in_order = z.in_order;
          counted = omega (arith, z.counted, none_dropped);
          bounded = z.bounded;
        };
      }
