-- ===== src/Recorder/Written.antt =====
-- The loop of data/writer.py against the events that it takes from the queue.
use binance_algo.Base.{
  ℕ, String, Bool, true, false, Option, none, some, List, [], ◌∷◌, ◌++◌, Result, ok, err, ◌&&◌,
  ◌||◌, if◌then◌else◌, leb, ltb, ◌≡◌, refl, sym, ◌∙◌, ap, arith, inl, inr, Bool-cases, Option-cases,
  subst, not, ◌⊎◌,
}
use binance_algo.Transaction.{◌>>◌, caught, Exec}
use binance_algo.Recorder.Buffers.{
  flush_full, appended, Turn, writer_failed, poll_all, run_writer, final_flush, sort_batches,
  flush_if, emptied, CanonicalStreamEvent, flush_each, flush_all, append, poll, Writer, timed_out,
  partition_key, key_eq, received, Poll, Batch, PartitionKey,
}
use binance_algo.Recorder.Delivery.{
  total-add, rows_in-add, rows_in-sort, IsDict-add, IsDict, rows_in-append, total, rows_in,
}
use binance_algo.Transaction.Moves.{bind-cases}
use mathlib.Core.List.{append_assoc, append-nil}

module _ {Row E : Type 0} where
  -- A flush that raises where it must and else keeps its batch.
  unfoldable pub handed :
      (PartitionKey → List Row → List (Batch Row) → Option E)
      → PartitionKey
      → List Row
      → Exec (List (Batch Row)) E (Unit {0})
  handed fails k rows log = elim (fails k rows log) [
    | none ↦ (ok tt, log ++ ((k, rows) ∷ []))
    | some e ↦ (err e, log)
  ]

total-empty :
    {Row : Type 0} (k : PartitionKey) (bs : List (Batch Row)) → total bs ≡ 0 → rows_in k bs ≡ []
unfolding rows_in
total-empty k [] none_left = refl
total-empty k ((j, []) ∷ bs) none_left = elim (Bool-cases (key_eq j k)) [
  | inl here ↦ rw here (total-empty k bs (omega (arith, none_left)))
  | inr other ↦ rw other (total-empty k bs (omega (arith, none_left)))
]
total-empty k ((j, r ∷ rows) ∷ bs) none_left = ground arith

module _ {Row E : Type 0} (utc : ℕ → String × ℕ)
    (fails : PartitionKey → List Row → List (Batch Row) → Option E) (max_rows : ℕ)
    (unreadable : ℕ → Option E) (is_caught : E → Bool) (recorder_error : E → E) where
  -- The rows of the events with a key, in the order of the queue.
  unfoldable pub rows_of : PartitionKey → List (Poll Row) → List Row
  rows_of k [] = []
  rows_of k (received e ∷ polls) =
      let rest = rows_of k polls in if key_eq (partition_key utc e) k then e.row ∷ rest else rest
  rows_of k (timed_out flush_due producers_done ∷ polls) = rows_of k polls

  rows_of-cons :
      (k : PartitionKey) (p : Poll Row) (polls : List (Poll Row))
      → rows_of k (p ∷ polls) ≡ rows_of k (p ∷ []) ++ rows_of k polls
  unfolding rows_of
  rows_of-cons k (received e) polls = elim (Bool-cases (key_eq (partition_key utc e) k)) [
    | inl here ↦ rw here refl
    | inr other ↦ rw other refl
  ]
  rows_of-cons k (timed_out flush_due producers_done) polls = refl

  -- The turns before the guard closes.
  abbrev pub taken : List (Turn Row) → List (Poll Row)
  taken [] = []
  taken (t ∷ turns) =
      let rest = taken turns in
      if not t.producers_done || not t.queue_empty then t.poll ∷ rest else []

  handed-ok :
      (j : PartitionKey) (rows : List Row) (log : List (Batch Row))
      → (handed fails j rows log).0 ≡ ok tt
      → (handed fails j rows log).1 ≡ log ++ ((j, rows) ∷ [])
  unfolding handed
  handed-ok j rows log done = elim (Option-cases (fails j rows log)) [
    | inl passed ↦ rw (passed, handed) refl
    | inr (e, failed) ↦ ground arith
  ]

  module _ (k : PartitionKey) where
    -- A flush that returns has handed over the rows of the key, in order.
    abbrev Gives : List Row → Result E (Unit {0}) × List (Batch Row) → Type 0
    Gives sofar (ok _, log) = rows_in k log ≡ sofar
    Gives sofar (err e, log) = Unit

    next_batch :
        (b : Batch Row) (rest log : List (Batch Row))
        → rows_in k (log ++ (b ∷ [])) ++ rows_in k rest ≡ rows_in k log ++ rows_in k (b ∷ rest)
    next_batch b rest log = rw (rows_in-append k log (b ∷ [])) (
        append_assoc (rows_in k log) (rows_in k (b ∷ [])) (rows_in k rest)
        ∙ ap (λ xs. rows_in k log ++ xs) (sym (rows_in-append k (b ∷ []) rest)))

    empty_batch :
        (j : PartitionKey) (rest : List (Batch Row)) → rows_in k ((j, []) ∷ rest) ≡ rows_in k rest
    unfolding rows_in
    empty_batch j rest = elim (Bool-cases (key_eq j k)) [
      | inl here ↦ rw here refl
      | inr other ↦ rw other refl
    ]

    flush_each-Gives :
        (bs log : List (Batch Row))
        → Gives (rows_in k log ++ rows_in k bs) (flush_each utc (handed fails) max_rows bs log)
    unfolding flush_each
    flush_each-Gives [] log = unfold rows_in in sym (append-nil (rows_in k log))
    flush_each-Gives ((j, []) ∷ rest) log =
        subst (λ xs. Gives (rows_in k log ++ xs) (flush_each utc (handed fails) max_rows rest log))
          (sym (empty_batch j rest)) (flush_each-Gives rest log)
    flush_each-Gives ((j, r ∷ rows) ∷ rest) log =
        bind-cases (Gives (rows_in k log ++ rows_in k ((j, r ∷ rows) ∷ rest)))
          (handed fails j (r ∷ rows)) (λ _. flush_each utc (handed fails) max_rows rest) log
          (λ u done. rw (handed-ok j (r ∷ rows) log done) (
            subst
              (λ xs.
                Gives xs
                  (flush_each utc (handed fails) max_rows rest (log ++ ((j, r ∷ rows) ∷ []))))
              (next_batch (j, r ∷ rows) rest log)
              (flush_each-Gives rest (log ++ ((j, r ∷ rows) ∷ [])))))
          (λ e failed. tt)

    abbrev IsSound : Writer Row → Type 0
    IsSound w = IsDict w.buffers × (w.buffered_rows ≡ total w.buffers)

    -- What was handed over and what is in the buffers, for the key.
    abbrev rows_so_far : Writer Row → List (Batch Row) → List Row
    rows_so_far w log = rows_in k log ++ rows_in k w.buffers

    abbrev Held : List Row → Result E (Unit {0}) × (Writer Row × List (Batch Row)) → Type 0
    Held sofar (ok _, (w, log)) = (rows_so_far w log ≡ sofar) × IsSound w
    Held sofar (err e, (w, log)) = Unit

    abbrev Finished : List Row → Result E (Unit {0}) × (Writer Row × List (Batch Row)) → Type 0
    Finished sofar (ok _, (w, log)) = rows_in k log ≡ sofar
    Finished sofar (err e, (w, log)) = Unit

    emptied-Held :
        (w : Writer Row) (sofar : List Row) (q : Result E (Unit {0}) × List (Batch Row))
        → Gives sofar q
        → Held sofar (q.0, (emptied w, q.1)) × Finished sofar (q.0, (emptied w, q.1))
    emptied-Held w sofar (ok u, log) given =
        unfold rows_in in ((append-nil (rows_in k log) ∙ given, (tt, refl)), given)
    emptied-Held w sofar (err e, log) given = (tt, tt)

    flush_all-Held :
        (w : Writer Row) (log : List (Batch Row))
        → let p = flush_all utc (handed fails) max_rows (w, log) in
          Held (rows_so_far w log) p × Finished (rows_so_far w log) p
    unfolding flush_all
    flush_all-Held w log =
        emptied-Held w (rows_so_far w log)
          (flush_each utc (handed fails) max_rows (sort_batches w.buffers) log)
          (subst
            (λ xs.
              Gives (rows_in k log ++ xs)
                (flush_each utc (handed fails) max_rows (sort_batches w.buffers) log))
            (rows_in-sort k w.buffers) (flush_each-Gives (sort_batches w.buffers) log))

    flush_if-Held :
        (b : Bool) (w : Writer Row) (log : List (Batch Row))
        → IsSound w
        → Held (rows_so_far w log) (flush_if utc (handed fails) max_rows b (w, log))
    flush_if-Held true w log sound = (flush_all-Held w log).0
    flush_if-Held false w log sound = (refl, sound)

    append-IsSound :
        (e : CanonicalStreamEvent Row) (w : Writer Row) → IsSound w → IsSound (appended utc e w)
    unfolding appended
    append-IsSound e w (dict, counted) = (
      IsDict-add (partition_key utc e) e.row w.buffers dict,
      omega (arith, counted, total-add (partition_key utc e) e.row w.buffers),
    )

    append-rows :
        (e : CanonicalStreamEvent Row) (w : Writer Row) (log : List (Batch Row))
        → IsSound w
        → rows_so_far (appended utc e w) log ≡ rows_so_far w log ++ rows_of k (received e ∷ [])
    unfolding appended rows_of
    append-rows e w log (dict, counted) =
        ap (λ xs. rows_in k log ++ xs) (rows_in-add k (partition_key utc e) e.row w.buffers dict)
        ∙ sym (append_assoc (rows_in k log) (rows_in k w.buffers) (rows_of k (received e ∷ [])))

    append-ok :
        (e : CanonicalStreamEvent Row) (w : Writer Row) (log : List (Batch Row)) (u : Unit {0})
        → (append utc (handed fails) max_rows unreadable is_caught recorder_error e (w, log)).0
          ≡ ok u
        → (append utc (handed fails) max_rows unreadable is_caught recorder_error e (w, log)).1
          ≡ (appended utc e w, log)
    unfolding append
    append-ok e w log u done = ground (arith, done)

    received-Held :
        (e : CanonicalStreamEvent Row) (w : Writer Row) (log : List (Batch Row))
        → IsSound w
        → Held (rows_so_far w log ++ rows_of k (received e ∷ [])) (
            poll utc
              (handed fails)
              max_rows
              unreadable
              is_caught
              recorder_error
              (received e)
              (w, log))
    unfolding poll
    received-Held e w log sound =
        let next = appended utc e w in
        let full = flush_full utc (handed fails) max_rows unreadable is_caught recorder_error in
        bind-cases (Held (rows_so_far w log ++ rows_of k (received e ∷ [])))
          (append utc (handed fails) max_rows unreadable is_caught recorder_error e) (λ _. full)
          (w, log)
          (λ u done.
            subst (λ state. Held (rows_so_far w log ++ rows_of k (received e ∷ [])) (full state))
              (sym (append-ok e w log u done))
              (subst (λ xs. Held xs (full (next, log))) (append-rows e w log sound)
                (flush_if-Held (leb max_rows next.buffered_rows) next log
                  (append-IsSound e w sound))))
          (λ x raises. tt)

    poll-Held :
        (p : Poll Row) (w : Writer Row) (log : List (Batch Row))
        → IsSound w
        → Held
            (rows_so_far w log ++ rows_of k (p ∷ []))
            (poll utc (handed fails) max_rows unreadable is_caught recorder_error p (w, log))
    unfolding poll
    poll-Held (received e) w log sound = received-Held e w log sound
    poll-Held (timed_out flush_due producers_done) w log sound =
        let flush = ltb 0 w.buffered_rows && (flush_due || producers_done) in
        let same : rows_so_far w log
            ≡ rows_so_far w log ++ rows_of k (timed_out flush_due producers_done ∷ []) =
          unfold rows_of in sym (append-nil (rows_so_far w log)) in
        subst (λ xs. Held xs (flush_if utc (handed fails) max_rows flush (w, log))) same
          (flush_if-Held flush w log sound)

    Held-ok :
        (sofar : List Row) (p : Result E (Unit {0}) × (Writer Row × List (Batch Row)))
        (u : Unit {0})
        → p.0 ≡ ok u
        → Held sofar p
        → (rows_so_far p.1.0 p.1.1 ≡ sofar) × IsSound p.1.0
    Held-ok sofar (ok v, state) u done held = held
    Held-ok sofar (err e, state) u done held = ground arith

    final-Finished :
        (w : Writer Row) (log : List (Batch Row))
        → IsSound w
        → Finished (rows_so_far w log) (final_flush utc (handed fails) max_rows (w, log))
    final-Finished w log (dict, counted) = elim (Bool-cases (ltb 0 w.buffered_rows)) [
      | inl some_left ↦ rw some_left (flush_all-Held w log).1
      | inr none_left ↦
          let empty = total-empty k w.buffers (ground (arith, counted, none_left)) in
          rw (none_left, empty) (sym (append-nil (rows_in k log)))
    ]

    flushed-Finished :
        (w : Writer Row) (log : List (Batch Row))
        → IsSound w
        → Finished
            (rows_so_far w log ++ rows_of k [])
            (final_flush utc (handed fails) max_rows (w, log))
    flushed-Finished w log sound =
        let same : rows_so_far w log ≡ rows_so_far w log ++ rows_of k [] =
          unfold rows_of in sym (append-nil (rows_so_far w log)) in
        subst (λ xs. Finished xs (final_flush utc (handed fails) max_rows (w, log))) same
          (final-Finished w log sound)

    next-Finished :
        (p : Poll Row) (turns : List (Turn Row)) (w : Writer Row) (log : List (Batch Row))
        → IsSound w
        → ((v : Writer Row) (l : List (Batch Row))
            → IsSound v
            → Finished (rows_so_far v l ++ rows_of k (taken turns)) (
                poll_all utc
                  (handed fails)
                  max_rows
                  unreadable
                  is_caught
                  recorder_error
                  turns
                  (v, l)))
        → Finished (rows_so_far w log ++ rows_of k (p ∷ taken turns)) (
            (poll utc (handed fails) max_rows unreadable is_caught recorder_error p
                >> poll_all utc (handed fails) max_rows unreadable is_caught recorder_error turns)
              (w, log))
    next-Finished p turns w log sound later =
        bind-cases (Finished (rows_so_far w log ++ rows_of k (p ∷ taken turns)))
          (poll utc (handed fails) max_rows unreadable is_caught recorder_error p)
          (λ _. poll_all utc (handed fails) max_rows unreadable is_caught recorder_error turns)
          (w, log)
          (λ u done.
            let turn =
              poll utc (handed fails) max_rows unreadable is_caught recorder_error p (w, log) in
            let (rows, sound') =
              Held-ok (rows_so_far w log ++ rows_of k (p ∷ [])) turn u done
                (poll-Held p w log sound) in
            let whole =
              ap (λ xs. xs ++ rows_of k (taken turns)) rows
              ∙ append_assoc (rows_so_far w log) (rows_of k (p ∷ [])) (rows_of k (taken turns))
              ∙ ap (λ xs. rows_so_far w log ++ xs) (sym (rows_of-cons k p (taken turns))) in
            subst
              (λ xs. Finished xs (
                poll_all utc (handed fails) max_rows unreadable is_caught recorder_error turns
                  turn.1))
              whole (later turn.1.0 turn.1.1 sound'))
          (λ e failed. tt)

    poll_all-Finished :
        (turns : List (Turn Row)) (w : Writer Row) (log : List (Batch Row))
        → IsSound w
        → Finished (rows_so_far w log ++ rows_of k (taken turns)) (
            poll_all utc (handed fails) max_rows unreadable is_caught recorder_error turns (w, log))
    unfolding poll_all
    poll_all-Finished [] w log sound = flushed-Finished w log sound
    poll_all-Finished (t ∷ turns) w log sound =
        elim (Bool-cases (not t.producers_done || not t.queue_empty)) [
          | inl more ↦ simp more (next-Finished t.poll turns w log sound (poll_all-Finished turns))
          | inr over ↦ simp over (flushed-Finished w log sound)
        ]

  abbrev pub started : Writer Row
  started = record { buffers = []; buffered_rows = 0; writer_healthy = true }

  poll-healthy :
      (p : Poll Row) (w : Writer Row) (log : List (Batch Row))
      → (poll utc
          (handed fails)
          max_rows
          unreadable
          is_caught
          recorder_error
          p
          (w, log)).1.0.writer_healthy
        ≡ w.writer_healthy
  unfolding poll append appended flush_all
  poll-healthy (received e) w log = ground arith
  poll-healthy (timed_out flush_due producers_done) w log = ground arith

  final-healthy :
      (w : Writer Row) (log : List (Batch Row))
      → (final_flush utc (handed fails) max_rows (w, log)).1.0.writer_healthy ≡ w.writer_healthy
  unfolding flush_all
  final-healthy w log = ground arith

  poll_all-healthy :
      (turns : List (Turn Row)) (w : Writer Row) (log : List (Batch Row))
      → w.writer_healthy ≡ true
      → (poll_all utc
          (handed fails)
          max_rows
          unreadable
          is_caught
          recorder_error
          turns
          (w, log)).1.0.writer_healthy
        ≡ true
  unfolding poll_all
  poll_all-healthy [] w log healthy = final-healthy w log ∙ healthy
  poll_all-healthy (t ∷ turns) w log healthy =
      elim (Bool-cases (not t.producers_done || not t.queue_empty)) [
        | inl more ↦ simp more (
            bind-cases (λ p. p.1.0.writer_healthy ≡ true)
              (poll utc (handed fails) max_rows unreadable is_caught recorder_error t.poll)
              (λ _. poll_all utc (handed fails) max_rows unreadable is_caught recorder_error turns)
              (w, log) (λ _ _. poll_all-healthy turns _ _ (poll-healthy t.poll w log ∙ healthy))
              (λ _ _. poll-healthy t.poll w log ∙ healthy))
        | inr over ↦ simp over (final-healthy w log ∙ healthy)
      ]

  -- A run that returns has handed over, for every key, the rows of its events; the error of one that
  -- raises was told to the health state, or is of another kind.
  abbrev pub Delivers :
      List (Poll Row) → Result E (Unit {0}) × (Writer Row × List (Batch Row)) → Type 0
  Delivers polls (ok _, (w, log)) = (k : PartitionKey) → rows_in k log ≡ rows_of k polls
  Delivers polls (err x, (w, log)) =
      ((e : E) × (is_caught e ≡ true) × (x ≡ recorder_error e) × (w.writer_healthy ≡ false))
      ⊎ ((is_caught x ≡ false) × (w.writer_healthy ≡ true))

  caught-Delivers :
      (polls : List (Poll Row)) (p : Result E (Unit {0}) × (Writer Row × List (Batch Row)))
      → p.1.0.writer_healthy ≡ true
      → ((k : PartitionKey) → Finished k (rows_of k polls) p)
      → Delivers polls
          (caught (writer_failed utc (handed fails) max_rows unreadable is_caught recorder_error) p)
  caught-Delivers polls (ok u, state) healthy finished = finished
  caught-Delivers polls (err e, (w, log)) healthy finished = elim (Bool-cases (is_caught e)) [
    | inl ours ↦ simp ours (inl (e, ours, refl, refl))
    | inr other ↦ simp other (inr (refl, healthy))
  ]

  -- If the loop of the writer returns, then for every key of a partition the rows handed to its
  -- flushes are those of the events with this key that it took from the queue before its guard
  -- closed, each once and in their order, whatever the timeouts and the limit of rows; if it raises,
  -- then RecorderError for an error of the kinds that it catches, and the writer is marked unhealthy,
  -- or an error of another kind, and it is not.
  pub run_writer-Delivers :
      (turns : List (Turn Row))
      → Delivers (taken turns) (
          run_writer utc
            (handed fails)
            max_rows
            unreadable
            is_caught
            recorder_error
            turns
            (started, []))
  unfolding run_writer rows_in
  run_writer-Delivers turns =
      caught-Delivers (taken turns)
        (poll_all utc (handed fails) max_rows unreadable is_caught recorder_error turns
          (started, []))
        (poll_all-healthy turns started [] refl)
        (λ k. poll_all-Finished k turns started [] (tt, refl))
