-- ===== src/Sockets/Backoff.antt =====
-- The records and the pauses of `run` of exchange/binance_usdm/websocket.py.
use binance_algo.Base.{
  ℕ, String, true, Option, none, some, List, [], ◌∷◌, ◌++◌, Result, ok, err, ◌+◌, ◌≤◌, length, ◌≡◌,
  refl, arith, Bool-cases, inl, inr, sym, ap, ◌∙◌, All, map, ◌⊎◌,
}
use binance_algo.Sockets.Lossless.{length-append_one}
use binance_algo.Sockets.Client.{
  Socket, SocketError, Ending, Failure, queue_saturated, cancelled, waiting, ceiling_overflow,
  DisconnectRecord,
}
use binance_algo.Streams.Json.{StreamError}
use binance_algo.Streams.Parsers.{Receipt}
use binance_algo.Recorder.Sequence.{StreamEvent}
use mathlib.Core.List.{append_assoc, append-nil}
use binance_algo.Sockets.Session.{
  waited, counted, pause_for, delay_of, Attempt, Settings, attempt_once, close_attempt, connected,
  leave_connection, onward, run_from, next_attempt, ceiling_of,
}
use binance_algo.Sockets.Records.{SameRecords, same_records, receive-Keeps}

abbrev pub record_id : DisconnectRecord → String
record_id r = r.connection_id

abbrev pub attempt_id : Attempt → String
attempt_id a = a.connection_id

map-append_one :
    (rs : List DisconnectRecord) (r : DisconnectRecord)
    → map record_id (rs ++ (r ∷ [])) ≡ map record_id rs ++ (r.connection_id ∷ [])
map-append_one [] r = refl
map-append_one (x ∷ rs) r = ap (λ l. x.connection_id ∷ l) (map-append_one rs r)

module _ {Event : Type 0} (view : Event → StreamEvent)
    (parse : Receipt → String → Result StreamError (Option Event)) (c : Settings) where
  -- The connections that left a record, by their identities, and the others; how many of them were not
  -- followed by a new one: the last one, where the run is over, unless a stop or an error was seen
  -- after its reconnection was counted; and the pauses.
  pub record IsRecorded (attempts : List Attempt) (s : Socket Event)
      (p : Result SocketError Ending × Socket Event) : Type 0 where
    pub left : List String
    pub others : List String
    pub names : map record_id p.1.disconnects ≡ map record_id s.disconnects ++ left
    pub first : map attempt_id attempts ≡ left ++ others
    pub last : ℕ
    pub at_most_one : last ≤ 1
    pub one_each :
        length p.1.disconnects + s.reconnects ≡ length s.disconnects + p.1.reconnects + last
    pub waits : List ℕ
    pub in_order : p.1.pauses ≡ s.pauses ++ waits
    pub bounded : All (λ n. n ≤ c.reconnect_max_ns) waits
    pub one_if_raised : (e : SocketError) → p.0 ≡ err e → (last ≡ 1) ⊎ (e ≡ ceiling_overflow)
    pub marked : p.0 ≡ err queue_saturated → p.1.queue_saturated ≡ true

  connected-SameRecords :
      (a : Attempt) (refused : Option Failure) (s : Socket Event)
      → SameRecords s (connected view parse c (record a { refused = refused }) s).1
  connected-SameRecords a none s =
      let t : Socket Event = record s { connections = s.connections + 1 } in
      let x = receive-Keeps view c.capacity parse c.connection_max_ns a.turns t in
      same_records view c.capacity parse x.same_disconnects x.same_reconnects x.same_pauses
  connected-SameRecords a (some failure) s = same_records view c.capacity parse refl refl refl

  -- One connection: a record unless it is still open.
  record IsClosed (a : Attempt) (s : Socket Event) (p : Result SocketError Ending × Socket Event)
      : Type 0 where
    pub left : List String
    pub others : List String
    pub names : map record_id p.1.disconnects ≡ map record_id s.disconnects ++ left
    pub first : a.connection_id ∷ [] ≡ left ++ others
    pub whole : p.0 ≡ ok Ending.stopped → others ≡ []
    pub closed : ℕ
    pub at_most_one : closed ≤ 1
    pub one_more : length p.1.disconnects ≡ length s.disconnects + closed
    pub same_reconnects : p.1.reconnects ≡ s.reconnects
    pub same_pauses : p.1.pauses ≡ s.pauses
    pub one_if_stopped : p.0 ≡ ok Ending.stopped → closed ≡ 1
    pub one_if_raised : (e : SocketError) → p.0 ≡ err e → closed ≡ 1
    pub marked : p.0 ≡ err queue_saturated → p.1.queue_saturated ≡ true

  module _ {s t : Socket Event} (x : SameRecords s t) where
    left_once :
        (a : Attempt) (reason : String) (u : Socket Event) (r : Result SocketError Ending)
        → u.disconnects ≡ t.disconnects
        → u.reconnects ≡ t.reconnects
        → u.pauses ≡ t.pauses
        → (r ≡ err queue_saturated → u.queue_saturated ≡ true)
        → IsClosed a s (r, leave_connection view parse c a reason u)
    left_once a reason u r d n k marks = record {
      left = a.connection_id ∷ [];
      others = [];
      names =
          map-append_one u.disconnects _
          ∙ ap (λ l. map record_id l ++ (a.connection_id ∷ [])) (d ∙ x.same_disconnects);
      first = refl;
      whole = λ _. refl;
      closed = 1;
      at_most_one = omega arith;
      one_more =
          length-append_one u.disconnects _ ∙ ap (λ l. length l + 1) (d ∙ x.same_disconnects);
      same_reconnects = n ∙ x.same_reconnects;
      same_pauses = k ∙ x.same_pauses;
      one_if_stopped = λ _. refl;
      one_if_raised = λ _ _. refl;
      marked = marks;
    }

    close-IsClosed :
        (a : Attempt) (r : Result SocketError Ending)
        → IsClosed a s (close_attempt view parse c a (r, t))
    close-IsClosed a (ok waiting) = record {
      left = [];
      others = a.connection_id ∷ [];
      names =
          ap (map record_id) x.same_disconnects ∙ sym (append-nil (map record_id s.disconnects));
      first = refl;
      whole = λ h. ground (arith, h);
      closed = 0;
      at_most_one = omega arith;
      one_more = ap length x.same_disconnects ∙ omega arith;
      same_reconnects = x.same_reconnects;
      same_pauses = x.same_pauses;
      one_if_stopped = λ h. ground (arith, h);
      one_if_raised = λ e h. ground (arith, h);
      marked = λ h. ground (arith, h);
    }
    close-IsClosed a (ok Ending.stopped) = left_once a _ t _ refl refl refl (λ h. ground (arith, h))
    close-IsClosed a (err queue_saturated) = left_once a _ _ _ refl refl refl (λ _. refl)
    close-IsClosed a (err cancelled) = left_once a _ t _ refl refl refl (λ h. ground (arith, h))
    close-IsClosed a (err _) = left_once a _ _ _ refl refl refl (λ h. ground (arith, h))

  attempt_once-IsClosed :
      (a : Attempt) (s : Socket Event) → IsClosed a s (attempt_once view parse c a s)
  unfolding attempt_once
  attempt_once-IsClosed a s =
      close-IsClosed (connected-SameRecords a a.refused s) a (connected view parse c a s).0

  ceiling-bound : (n : ℕ) {k : ℕ} → ceiling_of c n ≡ some k → k ≤ c.reconnect_max_ns
  unfolding ceiling_of
  ceiling-bound n h = ground (arith, h)

  -- A jitter that stays within its ceiling.
  abbrev pub JitterIsBounded : Attempt → Type 0
  JitterIsBounded a = (n : ℕ) → a.jitter n ≤ n

  delay-bound :
      (a : Attempt) (n : ℕ)
      → JitterIsBounded a
      → n ≤ c.reconnect_max_ns
      → delay_of a.jitter n ≤ c.reconnect_max_ns
  delay-bound a n h le = ground (arith, h n, le)

  closed-IsRecorded :
      (a : Attempt) (rest : List Attempt) {s : Socket Event}
      {p : Result SocketError Ending × Socket Event}
      → IsClosed a s p
      → IsRecorded (a ∷ rest) s p
  closed-IsRecorded a rest {s} x = record {
    left = x.left;
    others = x.others ++ map attempt_id rest;
    names = x.names;
    first =
        ap (λ l. l ++ map attempt_id rest) x.first
        ∙ append_assoc x.left x.others (map attempt_id rest);
    last = x.closed;
    at_most_one = x.at_most_one;
    one_each = omega (arith, x.one_more, x.same_reconnects);
    waits = [];
    in_order = x.same_pauses ∙ sym (append-nil s.pauses);
    bounded = tt;
    one_if_raised = λ e h. inl (x.one_if_raised e h);
    marked = x.marked;
  }

  paused-IsRecorded :
      {s t : Socket Event} (a : Attempt) (rest : List Attempt) (n : ℕ)
      {r : Result SocketError Ending × Socket Event}
      → JitterIsBounded a
      → n ≤ c.reconnect_max_ns
      → IsClosed a s (ok Ending.stopped, t)
      → IsRecorded rest (waited view parse c a n (counted view parse c t)) r
      → IsRecorded (a ∷ rest) s r
  paused-IsRecorded {s} {t} a rest n jitter le x y = record {
    left = x.left ++ y.left;
    others = y.others;
    names =
        y.names
        ∙ ap (λ l. l ++ y.left) x.names
        ∙ append_assoc (map record_id s.disconnects) x.left y.left;
    first =
        ap (λ l. l ++ map attempt_id rest) x.first
        ∙ append_assoc x.left x.others (map attempt_id rest)
        ∙ ap (λ l. x.left ++ (l ++ map attempt_id rest)) (x.whole refl)
        ∙ ap (λ l. x.left ++ l) y.first
        ∙ sym (append_assoc x.left y.left y.others);
    last = y.last;
    at_most_one = y.at_most_one;
    one_each = omega (arith, x.one_more, x.same_reconnects, x.one_if_stopped refl, y.one_each);
    waits = delay_of a.jitter n ∷ y.waits;
    in_order =
        y.in_order
        ∙ append_assoc t.pauses (delay_of a.jitter n ∷ []) y.waits
        ∙ ap (λ l. l ++ (delay_of a.jitter n ∷ y.waits)) x.same_pauses;
    bounded = (delay-bound a n jitter le, y.bounded);
    one_if_raised = y.one_if_raised;
    marked = y.marked;
  }

  -- A pause too long to be computed is raised after the counter of the reconnection.
  overflow-IsRecorded :
      (a : Attempt) (rest : List Attempt) {s t : Socket Event}
      → IsClosed a s (ok Ending.stopped, t)
      → IsRecorded (a ∷ rest) s (err ceiling_overflow, counted view parse c t)
  overflow-IsRecorded a rest {s} x = record {
    left = x.left;
    others = x.others ++ map attempt_id rest;
    names = x.names;
    first =
        ap (λ l. l ++ map attempt_id rest) x.first
        ∙ append_assoc x.left x.others (map attempt_id rest);
    last = 0;
    at_most_one = omega arith;
    one_each = omega (arith, x.one_more, x.same_reconnects, x.one_if_stopped refl);
    waits = [];
    in_order = x.same_pauses ∙ sym (append-nil s.pauses);
    bounded = tt;
    one_if_raised = λ e h. inr (ground (arith, h));
    marked = λ h. ground (arith, h);
  }

  pause-IsRecorded :
      (a : Attempt) (rest : List Attempt) (n : ℕ) {s t : Socket Event} (o : Option ℕ)
      → ((k : ℕ) → o ≡ some k → k ≤ c.reconnect_max_ns)
      → JitterIsBounded a
      → IsClosed a s (ok Ending.stopped, t)
      → ((u : Socket Event) → IsRecorded rest u (run_from view parse c n rest u))
      → IsRecorded
          (a ∷ rest)
          s
          (pause_for view parse c a (run_from view parse c n rest) o (counted view parse c t))
  pause-IsRecorded a rest n none le jitter x later = overflow-IsRecorded a rest x
  pause-IsRecorded a rest n (some k) le jitter x later =
      paused-IsRecorded a rest k jitter (le k refl) x (later _)

  onward-IsRecorded :
      (a : Attempt) (rest : List Attempt) (n : ℕ) {s : Socket Event}
      (p : Result SocketError Ending × Socket Event)
      → JitterIsBounded a
      → IsClosed a s p
      → ((t : Socket Event) → IsRecorded rest t (run_from view parse c n rest t))
      → IsRecorded (a ∷ rest) s (onward view parse c a (run_from view parse c n rest) n p)
  onward-IsRecorded a rest n (ok waiting, t) jitter x later = closed-IsRecorded a rest x
  onward-IsRecorded a rest n (ok Ending.stopped, t) jitter x later =
      elim (Bool-cases a.stopped_after) [
        | inl stop ↦ simp stop (closed-IsRecorded a rest x)
        | inr going ↦
            simp going
              (pause-IsRecorded a rest n (ceiling_of c n) (λ k. ceiling-bound n) jitter x later)
      ]
  onward-IsRecorded a rest n (err e, t) jitter x later = closed-IsRecorded a rest x

  still :
      (attempts : List Attempt) (s : Socket Event) (r : Ending) → IsRecorded attempts s (ok r, s)
  still attempts s r = record {
    left = [];
    others = map attempt_id attempts;
    names = sym (append-nil (map record_id s.disconnects));
    first = refl;
    last = 0;
    at_most_one = omega arith;
    one_each = omega arith;
    waits = [];
    in_order = sym (append-nil s.pauses);
    bounded = tt;
    one_if_raised = λ e h. ground (arith, h);
    marked = λ h. ground (arith, h);
  }

  -- If the jitter stays within its ceilings: the connections that `run` opens and closes leave one
  -- record each, under their identities and in their order, and each of them but at most the last is
  -- followed by one reconnection; every pause is at most `reconnect_max`; an error that is raised
  -- comes after the record of its connection, unless the pause after it could not be computed; and a
  -- saturated queue is marked in the health.
  pub run-IsRecorded :
      (attempt : ℕ) (attempts : List Attempt) (s : Socket Event)
      → All JitterIsBounded attempts
      → IsRecorded attempts s (run_from view parse c attempt attempts s)
  unfolding run_from
  run-IsRecorded attempt [] s jitter = still [] s waiting
  run-IsRecorded attempt (a ∷ rest) s (jitter, jitters) =
      let next = next_attempt c a attempt in
      elim (Bool-cases a.stopped) [
        | inl stop ↦ simp stop (still (a ∷ rest) s Ending.stopped)
        | inr going ↦ simp going (
            onward-IsRecorded a rest next (attempt_once view parse c a s) jitter
              (attempt_once-IsClosed a s) (λ t. run-IsRecorded next rest t jitters))
      ]
