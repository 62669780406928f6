-- ===== src/Recorder/Buffers.antt =====
-- The buffers of data/writer.py: `_append`, `flush_all` and the loop of `run`. `flush` is
-- `_flush_partition`, and `utc` gives the date and the hour of a time.
use binance_algo.Base.{
  Option, none, some, ℕ, String, Bool, false, List, [], ◌∷◌, ◌++◌, ok, err, str_eq, ◌==◌, ◌&&◌,
  ◌||◌, if◌then◌else◌, is_empty, leb, ltb, string_leb, ◌+◌, not,
}
use binance_algo.Transaction.{Exec, pure, try_except, ◌>>◌}

pub record PartitionKey : Type 0 where
  pub event_type : String
  pub day : String
  pub hour : ℕ
  pub symbol : String

abbrev pub key_eq : PartitionKey → PartitionKey → Bool
key_eq a b =
    str_eq a.event_type b.event_type
    && str_eq a.day b.day
    && a.hour == b.hour
    && str_eq a.symbol b.symbol

-- The order of the tuples.
unfoldable pub key_leb : PartitionKey → PartitionKey → Bool
key_leb a b =
    if not (str_eq a.event_type b.event_type)
    then string_leb a.event_type b.event_type
    else if not (str_eq a.day b.day)
    then string_leb a.day b.day
    else if not (a.hour == b.hour)
    then leb a.hour b.hour
    else string_leb a.symbol b.symbol

abbrev pub Batch : Type 0 → Type 0
Batch Row = PartitionKey × List Row

-- What `_append` reads of an event.
pub record CanonicalStreamEvent (Row : Type 0) : Type 0 where
  pub event_type : String
  pub symbol : String
  pub event_time_ms : ℕ
  pub row : Row

-- The buffers, the count of their rows, and `health.writer_healthy`.
pub record Writer (Row : Type 0) : Type 0 where
  pub buffers : List (Batch Row)
  pub buffered_rows : ℕ
  pub writer_healthy : Bool

-- One turn of the loop: an event of the queue, or a timeout with whether a flush is due and whether
-- the producers are done.
pub data Poll (Row : Type 0) : Type 0 where
  received : CanonicalStreamEvent Row → Poll Row
  timed_out : Bool → Bool → Poll Row

-- The guard of the loop, and the turn that it is before.
pub record Turn (Row : Type 0) : Type 0 where
  pub producers_done : Bool
  pub queue_empty : Bool
  pub poll : Poll Row

module _ {Row : Type 0} where
  -- `self._buffers[key].append(row)` on a `defaultdict(list)`
  unfoldable pub add_row : PartitionKey → Row → List (Batch Row) → List (Batch Row)
  add_row k row [] = (k, row ∷ []) ∷ []
  add_row k row ((j, rows) ∷ rest) =
      let below = add_row k row rest in
      if key_eq j k then (j, rows ++ (row ∷ [])) ∷ rest else (j, rows) ∷ below

  unfoldable pub insert_batch : Batch Row → List (Batch Row) → List (Batch Row)
  insert_batch b [] = b ∷ []
  insert_batch (k, rows) ((j, others) ∷ rest) =
      let below = insert_batch (k, rows) rest in
      if key_leb k j then (k, rows) ∷ (j, others) ∷ rest else (j, others) ∷ below

  -- `sorted(pending)`
  unfoldable pub sort_batches : List (Batch Row) → List (Batch Row)
  sort_batches [] = []
  sort_batches (b ∷ rest) = insert_batch b (sort_batches rest)

  abbrev pub emptied : Writer Row → Writer Row
  emptied w = record w { buffers = []; buffered_rows = 0 }

  abbrev pub unhealthy : Writer Row → Writer Row
  unhealthy w = record w { writer_healthy = false }

module _ {Row : Type 0} (utc : ℕ → String × ℕ) where
  abbrev pub partition_key : CanonicalStreamEvent Row → PartitionKey
  partition_key e = record {
    event_type = e.event_type;
    day = (utc e.event_time_ms).0;
    hour = (utc e.event_time_ms).1;
    symbol = e.symbol;
  }

  -- The buffers with one row more.
  unfoldable pub appended : CanonicalStreamEvent Row → Writer Row → Writer Row
  appended e w = record w {
    buffers = add_row (partition_key e) e.row w.buffers;
    buffered_rows = w.buffered_rows + 1;
  }

  module _ {S E : Type 0} (flush : PartitionKey → List Row → Exec S E (Unit {0}))
      (max_rows : ℕ) where
    unfoldable pub flush_each : List (Batch Row) → Exec S E (Unit {0})
    flush_each [] = pure tt
    flush_each ((k, rows) ∷ rest) =
        (if is_empty rows then pure tt else flush k rows) >> flush_each rest

    -- `flush_all`: the buffers are emptied before the first flush.
    unfoldable pub flush_all : Exec (Writer Row × S) E (Unit {0})
    flush_all (w, s) =
        let (result, after) = flush_each (sort_batches w.buffers) s in (result, (emptied w, after))

    abbrev pub flush_if : Bool → Exec (Writer Row × S) E (Unit {0})
    flush_if b ws = if b then flush_all ws else (ok tt, ws)

    -- `if self._buffered_rows`
    abbrev pub final_flush : Exec (Writer Row × S) E (Unit {0})
    final_flush (w, s) = flush_if (ltb 0 w.buffered_rows) (w, s)

    -- `unreadable` is what `datetime.fromtimestamp` raises for a time out of its range, `is_caught`
    -- whether an exception is a BinanceAlgoError, an OSError or a PolarsError, and `recorder_error`
    -- the RecorderError that is raised from it.
    module _ (unreadable : ℕ → Option E) (is_caught : E → Bool) (recorder_error : E → E) where
      -- `_append`
      unfoldable pub append : CanonicalStreamEvent Row → Exec (Writer Row × S) E (Unit {0})
      append e (w, s) = elim (unreadable e.event_time_ms) [
        | none ↦ (ok tt, (appended e w, s))
        | some x ↦ (err x, (w, s))
      ]

      -- `if self._buffered_rows >= self._max_rows`
      abbrev pub flush_full : Exec (Writer Row × S) E (Unit {0})
      flush_full (w, s) = flush_if (leb max_rows w.buffered_rows) (w, s)

      -- The body of the loop.
      unfoldable pub poll : Poll Row → Exec (Writer Row × S) E (Unit {0})
      poll (received e) = append e >> flush_full
      poll (timed_out flush_due producers_done) =
          λ (w, s). flush_if (ltb 0 w.buffered_rows && (flush_due || producers_done)) (w, s)

      -- `while not producers_done.is_set() or not queue.empty()`
      unfoldable pub poll_all : List (Turn Row) → Exec (Writer Row × S) E (Unit {0})
      poll_all [] = final_flush
      poll_all (t ∷ turns) =
          if not t.producers_done || not t.queue_empty
          then poll t.poll >> poll_all turns
          else final_flush

      abbrev pub writer_failed : E → Exec (Writer Row × S) E (Unit {0})
      writer_failed e (w, s) =
          if is_caught e then (err (recorder_error e), (unhealthy w, s)) else (err e, (w, s))

      -- `run`, over the turns of the loop.
      unfoldable pub run_writer : List (Turn Row) → Exec (Writer Row × S) E (Unit {0})
      run_writer turns = try_except (poll_all turns) writer_failed
