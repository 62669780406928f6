-- ===== src/Sockets/Reception.antt =====
-- `_receive` of exchange/binance_usdm/websocket.py loses no event in silence.
use binance_algo.Base.{
  ◌||◌, if◌then◌else◌, subst, ℕ, String, Option, none, some, List, [], ◌∷◌, ◌++◌, Result, ok, err,
  leb, ◌≡◌, refl, arith, Bool-cases, inl, inr, sym, ap, ◌∙◌,
}
use binance_algo.Sockets.Client.{
  cancelled, Socket, SocketError, Turn, Ending, Message, client_failure, cancellation, enqueue,
  observe_event, accept, handle, receive, queue_saturated, text_frame, waiting,
}
use binance_algo.Transaction.Moves.{bind-cases}
use mathlib.Core.List.{append_assoc}
use binance_algo.Streams.Json.{StreamError}
use binance_algo.Streams.Parsers.{Receipt}
use binance_algo.Recorder.Sequence.{StreamEvent}
use binance_algo.Sockets.Lossless.{Extends, Extends-refl, Extends-trans, enqueue-Extends}

-- A saturated queue drops the event that it has no place for.
abbrev pub dropped_by : SocketError → ℕ
dropped_by queue_saturated = 1
dropped_by _ = 0

abbrev pub dropped {ℓ} : {A : Type ℓ} → Result SocketError A → ℕ
dropped (ok a) = 0
dropped (err e) = dropped_by e

-- What becomes of a connection at a message: it stays open, it is over, or its task is cancelled.
pub data Verdict : Type 0 where
  keeps ends cancels : Verdict

abbrev pub while_open : {A : Type 0} → Verdict → List A → List A
while_open keeps xs = xs
while_open _ xs = []

abbrev pub unless_over : Verdict → Verdict → Verdict
unless_over keeps v = v
unless_over v _ = v

-- What a handled message gives, by its verdict; a saturated queue has no place for its event.
abbrev StepMatches : Verdict → Result SocketError (Unit {0}) → Type 0
StepMatches v (ok u) = v ≡ keeps
StepMatches v (err queue_saturated) = v ≡ keeps
StepMatches v (err cancelled) = v ≡ cancels
StepMatches v (err e) = v ≡ ends

-- What a connection gives, by its verdict, unless the queue is saturated.
abbrev pub Matches : Verdict → Result SocketError Ending → Type 0
Matches v (ok waiting) = v ≡ keeps
Matches v (ok Ending.stopped) = v ≡ ends
Matches v (err queue_saturated) = Unit
Matches v (err cancelled) = v ≡ cancels
Matches v (err e) = v ≡ ends

Matches-failed :
    (v : Verdict) (e : SocketError) (w : Verdict)
    → StepMatches v (err e)
    → Matches (unless_over v w) (err e)
Matches-failed v e w h = ground (arith, h)

module _ {Event : Type 0} (view : Event → StreamEvent) (capacity : ℕ)
    (parse : Receipt → String → Result StreamError (Option Event)) where
  abbrev parsed : Result StreamError (Option Event) → List Event
  parsed (ok (some e)) = e ∷ []
  parsed _ = []

  abbrev carried : Message → List Event
  carried (text_frame receipt text) = parsed (parse receipt text)
  carried _ = []

  abbrev parse_verdict : Result StreamError (Option Event) → Verdict
  parse_verdict (ok o) = keeps
  parse_verdict (err e) = ends

  abbrev pub message_verdict : Message → Verdict
  message_verdict (text_frame receipt text) = parse_verdict (parse receipt text)
  message_verdict Message.ping = keeps
  message_verdict Message.pong = keeps
  message_verdict (Message.raises cancellation) = cancels
  message_verdict _ = ends

  -- A stop and the age of the connection end it before its message is read.
  abbrev pub turn_verdict : ℕ → Turn → Verdict
  turn_verdict connection_max t =
      if t.stopped || leb connection_max t.age_ns then ends else message_verdict t.message

  -- The events of the text frames, in the order of the frames, up to the turn that ends the
  -- connection.
  abbrev pub arrived : ℕ → List Turn → List Event
  arrived connection_max [] = []
  arrived connection_max (t ∷ ts) =
      while_open (turn_verdict connection_max t) (carried t.message ++ arrived connection_max ts)

  -- How the connection ends, if the queue has a place for every event.
  abbrev pub closing : ℕ → List Turn → Verdict
  closing connection_max [] = keeps
  closing connection_max (t ∷ ts) =
      unless_over (turn_verdict connection_max t) (closing connection_max ts)

  -- What one message does: its events join the queue, or an error is raised and none do.
  abbrev Handled : Socket Event → List Event → Result SocketError (Unit {0}) × Socket Event → Type 0
  Handled s fresh (ok u, after) = Extends capacity s fresh 0 after
  Handled s fresh (err e, after) = Extends capacity s [] (dropped_by e) after

  accept-Handled :
      (t : Turn) (r : Result StreamError (Option Event)) (s : Socket Event)
      → Handled s (parsed r) (accept view capacity parse t r s)
  unfolding observe_event
  accept-Handled t (err e) s = Extends-refl capacity s
  accept-Handled t (ok none) s = Extends-refl capacity s
  accept-Handled t (ok (some e)) s =
      bind-cases (Handled s (e ∷ [])) (enqueue view capacity e t.served)
        (λ _. observe_event view capacity e t.marked_at_ns) s
        (λ _ put. elim (enqueue-Extends view capacity e t.served s) [
          | inl (_, x) ↦ record { in_order = x.in_order; counted = x.counted; bounded = x.bounded }
          | inr (full, x) ↦ ground (arith, put, full)
        ])
        (λ error full. elim (enqueue-Extends view capacity e t.served s) [
          | inl (put, x) ↦ ground (arith, put, full)
          | inr (is_full, x) ↦
              let same : queue_saturated ≡ error = ground (arith, is_full, full) in
              subst
                (λ o. Extends capacity s [] (dropped_by o) (enqueue view capacity e t.served s).1)
                same x
        ])

  handle-Handled :
      (t : Turn) (m : Message) (s : Socket Event)
      → Handled s (carried m) (handle view capacity parse t m s)
  unfolding handle
  handle-Handled t (text_frame receipt text) s = accept-Handled t (parse receipt text) s
  handle-Handled t (Message.raises (client_failure text)) s = Extends-refl capacity s
  handle-Handled t (Message.raises cancellation) s = Extends-refl capacity s
  handle-Handled t Message.ping s = Extends-refl capacity s
  handle-Handled t Message.pong s = Extends-refl capacity s
  handle-Handled t _ s = Extends-refl capacity s

  Handled-ok :
      {s : Socket Event} {events : List Event} (p : Result SocketError (Unit {0}) × Socket Event)
      {u : Unit {0}}
      → Handled s events p
      → p.0 ≡ ok u
      → Extends capacity s events 0 p.1
  Handled-ok (ok u, after) h e = h
  Handled-ok (err o, after) h e = ground (arith, e)

  Handled-err :
      {s : Socket Event} (events : List Event) (p : Result SocketError (Unit {0}) × Socket Event)
      {o : SocketError}
      → Handled s events p
      → p.0 ≡ err o
      → Extends capacity s [] (dropped_by o) p.1
  Handled-err events (ok u, after) h e = ground (arith, e)
  Handled-err {s} events (err error, after) {o} h e =
      let same : error ≡ o = ground (arith, e) in
      subst (λ x. Extends capacity s [] (dropped_by x) after) same h

  handle-StepMatches :
      (t : Turn) (m : Message) (s : Socket Event)
      → StepMatches (message_verdict m) (handle view capacity parse t m s).0
  unfolding handle enqueue observe_event
  handle-StepMatches t m s = ground arith

  -- The events that joined the queue are the first of those that arrived until the connection ended,
  -- and all of them if none is dropped; one is dropped where the queue is saturated, and none
  -- otherwise.
  pub record IsLossless (v : Verdict) (events : List Event) (s : Socket Event)
      (p : Result SocketError Ending × Socket Event) : Type 0 where
    pub fresh : List Event
    pub rest : List Event
    pub first : events ≡ fresh ++ rest
    pub complete : dropped p.0 ≡ 0 → rest ≡ []
    pub verdict : Matches v p.0
    pub extends : Extends capacity s fresh (dropped p.0) p.1

  nothing : (s : Socket Event) → IsLossless ends [] s (ok Ending.stopped, s)
  nothing s = record {
    fresh = [];
    rest = [];
    first = refl;
    complete = λ h. refl;
    verdict = refl;
    extends = Extends-refl capacity s;
  }

  after_one :
      {v : Verdict} {events more : List Event} {s t : Socket Event}
      {p : Result SocketError Ending × Socket Event}
      → Extends capacity s events 0 t
      → IsLossless v more t p
      → IsLossless v (events ++ more) s p
  after_one {events} x y = record {
    fresh = events ++ y.fresh;
    rest = y.rest;
    first = ap (λ l. events ++ l) y.first ∙ sym (append_assoc events y.fresh y.rest);
    complete = y.complete;
    verdict = y.verdict;
    extends =
        let z = Extends-trans x y.extends in
        record { in_order = z.in_order; counted = omega (arith, z.counted); bounded = z.bounded };
  }

  over :
      (v : Verdict) (e : SocketError) (xs : List Event)
      → StepMatches v (err e)
      → dropped_by e ≡ 0
      → while_open v xs ≡ []
  over v e xs h none_dropped = ground (arith, h, none_dropped)

  failed :
      (v w : Verdict) (events : List Event) {s t : Socket Event} (e : SocketError)
      → StepMatches v (err e)
      → Extends capacity s [] (dropped_by e) t
      → IsLossless (unless_over v w) (while_open v events) s (err e, t)
  failed v w events e h x = record {
    fresh = [];
    rest = while_open v events;
    first = refl;
    complete = λ none_dropped. over v e events h none_dropped;
    verdict = Matches-failed v e w h;
    extends = x;
  }

  went_on :
      (v w : Verdict) {events more : List Event} {s t : Socket Event}
      {p : Result SocketError Ending × Socket Event}
      → v ≡ keeps
      → Extends capacity s events 0 t
      → IsLossless w more t p
      → IsLossless (unless_over v w) (while_open v (events ++ more)) s p
  went_on v w {events} {more} {s} {p} going x y =
      subst (λ u. IsLossless (unless_over u w) (while_open u (events ++ more)) s p) (sym going)
        (after_one x y)

  step_ok :
      (v : Verdict) (r : Result SocketError (Unit {0})) {u : Unit {0}}
      → StepMatches v r
      → r ≡ ok u
      → v ≡ keeps
  step_ok v (ok u) h e = h
  step_ok v (err o) h e = ground (arith, e)

  step_err :
      (v : Verdict) (r : Result SocketError (Unit {0})) {o : SocketError}
      → StepMatches v r
      → r ≡ err o
      → StepMatches v (err o)
  step_err v r h e = subst (StepMatches v) e h

  pub receive-IsLossless :
      (connection_max : ℕ) (turns : List Turn) (s : Socket Event)
      → IsLossless
          (closing connection_max turns)
          (arrived connection_max turns)
          s
          (receive view capacity parse connection_max turns s)
  unfolding receive
  receive-IsLossless connection_max [] s = record {
    fresh = [];
    rest = [];
    first = refl;
    complete = λ _. refl;
    verdict = refl;
    extends = Extends-refl capacity s;
  }
  receive-IsLossless connection_max (t ∷ ts) s = elim (Bool-cases t.stopped) [
    | inl stop ↦ simp stop (nothing s)
    | inr going ↦ elim (Bool-cases (leb connection_max t.age_ns)) [
      | inl old ↦
          simp (going, old)
            (failed ends keeps [] SocketError.rotation refl (Extends-refl capacity s))
      | inr young ↦
          simp (going, young)
            (bind-cases
              (IsLossless (unless_over (message_verdict t.message) (closing connection_max ts))
                (while_open (message_verdict t.message)
                  (carried t.message ++ arrived connection_max ts))
                s)
              (handle view capacity parse t t.message)
              (λ _. receive view capacity parse connection_max ts) s
              (λ _ handled.
                went_on (message_verdict t.message) (closing connection_max ts)
                  (step_ok _ _ (handle-StepMatches t t.message s) handled)
                  (Handled-ok _ (handle-Handled t t.message s) handled)
                  (receive-IsLossless connection_max ts _))
              (λ e raises_e.
                failed (message_verdict t.message) (closing connection_max ts) _ e
                  (step_err _ _ (handle-StepMatches t t.message s) raises_e)
                  (Handled-err _ _ (handle-Handled t t.message s) raises_e)))
    ]
  ]
