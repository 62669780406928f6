-- ===== src/Sockets/Records.antt =====
-- `_receive` of exchange/binance_usdm/websocket.py leaves the records of connections alone.
use binance_algo.Base.{
  ℕ, zero, suc, String, Bool, true, false, Option, none, some, List, [], ◌∷◌, Result, ok, err, ltb,
  leb, length, ◌≡◌, refl, Bool-cases, inl, inr, ◌∙◌,
}
use binance_algo.Sockets.Client.{
  put_or_drop, Socket, Turn, receive, serve, take_first, enqueue, observe_event, accept, handle,
  Message, Action,
}
use binance_algo.Streams.Json.{StreamError}
use binance_algo.Transaction.{◌>>=◌}
use binance_algo.Transaction.Moves.{bind-Moves}
use binance_algo.Streams.Parsers.{Receipt}
use binance_algo.Recorder.Sequence.{StreamEvent}

-- What `_receive` leaves alone.
pub record SameRecords {Event : Type 0} (s t : Socket Event) : Type 0 where
  pub same_disconnects : t.disconnects ≡ s.disconnects
  pub same_reconnects : t.reconnects ≡ s.reconnects
  pub same_pauses : t.pauses ≡ s.pauses

module _ {Event : Type 0} (view : Event → StreamEvent) (capacity : ℕ)
    (parse : Receipt → String → Result StreamError (Option Event)) where
  pub same_records :
      {s t : Socket Event}
      → t.disconnects ≡ s.disconnects
      → t.reconnects ≡ s.reconnects
      → t.pauses ≡ s.pauses
      → SameRecords s t
  same_records d r p = record { same_disconnects = d; same_reconnects = r; same_pauses = p }

  SameRecords-refl : (s : Socket Event) → SameRecords s s
  SameRecords-refl s = record {
    same_disconnects = refl;
    same_reconnects = refl;
    same_pauses = refl;
  }

  SameRecords-trans : (s t u : Socket Event) → SameRecords s t → SameRecords t u → SameRecords s u
  SameRecords-trans s t u p q = record {
    same_disconnects = q.same_disconnects ∙ p.same_disconnects;
    same_reconnects = q.same_reconnects ∙ p.same_reconnects;
    same_pauses = q.same_pauses ∙ p.same_pauses;
  }

  abbrev pub Keeps : {A : Type 0} → Action view capacity A → Type 0
  Keeps m = (s : Socket Event) → SameRecords s (m s).1

  bind-Keeps :
      {A B : Type 0} (m : Action view capacity A) (f : A → Action view capacity B)
      → Keeps m
      → ((a : A) → Keeps (f a))
      → Keeps (m >>= f)
  bind-Keeps = bind-Moves SameRecords SameRecords-refl SameRecords-trans

  take_first-SameRecords :
      (es : List Event) (s : Socket Event) → SameRecords s (take_first view capacity es s)
  take_first-SameRecords [] s = SameRecords-refl s
  take_first-SameRecords (e ∷ es) s = same_records refl refl refl

  serve-SameRecords : (n : ℕ) (s : Socket Event) → SameRecords s (serve view capacity n s)
  unfolding serve
  serve-SameRecords zero s = SameRecords-refl s
  serve-SameRecords (suc n) s =
      SameRecords-trans s _ _ (take_first-SameRecords s.queue s) (serve-SameRecords n _)

  put_or_drop-Keeps : (e : Event) (room : Bool) → Keeps (put_or_drop view capacity e room)
  put_or_drop-Keeps e true s = same_records refl refl refl
  put_or_drop-Keeps e false s = same_records refl refl refl

  enqueue-Keeps : (e : Event) (n : ℕ) → Keeps (enqueue view capacity e n)
  unfolding enqueue
  enqueue-Keeps e n s =
      let t = serve view capacity n s in
      SameRecords-trans s t _ (serve-SameRecords n s)
        (put_or_drop-Keeps e (ltb (length t.queue) capacity) t)

  accept-Keeps :
      (t : Turn) (r : Result StreamError (Option Event)) → Keeps (accept view capacity parse t r)
  unfolding observe_event
  accept-Keeps t (err e) s = SameRecords-refl s
  accept-Keeps t (ok none) s = SameRecords-refl s
  accept-Keeps t (ok (some e)) s =
      bind-Keeps (enqueue view capacity e t.served)
        (λ _. observe_event view capacity e t.marked_at_ns) (enqueue-Keeps e t.served)
        (λ _ s'. same_records refl refl refl) s

  handle-Keeps : (t : Turn) (m : Message) → Keeps (handle view capacity parse t m)
  unfolding handle
  handle-Keeps t (Message.text_frame receipt text) s = accept-Keeps t (parse receipt text) s
  handle-Keeps t _ s = SameRecords-refl s

  pub receive-Keeps :
      (connection_max : ℕ) (turns : List Turn)
      → Keeps (receive view capacity parse connection_max turns)
  unfolding receive
  receive-Keeps connection_max [] s = SameRecords-refl s
  receive-Keeps connection_max (t ∷ ts) s = elim (Bool-cases t.stopped) [
    | inl stop ↦ simp stop (SameRecords-refl s)
    | inr going ↦ elim (Bool-cases (leb connection_max t.age_ns)) [
      | inl old ↦ simp (going, old) (SameRecords-refl s)
      | inr young ↦
          simp (going, young)
            (bind-Keeps (handle view capacity parse t t.message)
              (λ _. receive view capacity parse connection_max ts) (handle-Keeps t t.message)
              (λ _. receive-Keeps connection_max ts) s)
    ]
  ]
