-- ===== src/Registry/RunHistory.antt =====
-- Every method of research/experiments/store.py that writes a run, a metric or an artifact keeps the
-- runs sound.
use binance_algo.Base.{
  ◌<◌, if◌then◌else◌, ◌↔◌, some, true, Option, Bool, ap, ◌∙◌, contains, map, sort_strings, ok,
  eq_iff, arith, ◌++◌, ◌==◌, ◌+◌, ◌≡◌, str_eq, refl, ℕ, String, false, none, [], ◌∷◌,
}
use binance_algo.Table.Laws.{update-map, IsKeyed, no_conflict, append-IsKeyed}
use binance_algo.Table.Marked.{
  update-marked, contains-sort_strings, update-cong, update_any-IsKeyed,
}
use binance_algo.Registry.RunInvariant.{
  staled-RunIsSound, update-All, append-All, completed-RunIsSound, update-RunsAreSound,
  new_run-RunIsSound, RunIsSound, RunsAreSound,
}
use binance_algo.Table.{select_all, update, select}
use binance_algo.Registry.Runs.{
  staled, is_stale_before, run_key, has_run_id, new_run, artifact_count, metric_count, same_run,
  last_attempt, mark_stale_runs, create_run,
}
use binance_algo.Registry.Outputs.{run_completed}
use binance_algo.Registry.Status.{RunStatus}
use binance_algo.Registry.Schema.{RegistryDb, ExperimentRunRecord}

module _ {Float : Type 0} where
  add_run :
      (r : ExperimentRunRecord) (db : RegistryDb Float)
      → select (same_run r) db.runs ≡ none
      → RunIsSound (metric_count r.run_id db) (artifact_count r.run_id db) r
      → RunsAreSound db
      → RunsAreSound (record db { runs = db.runs ++ (r ∷ []) })
  add_run r db new sound h = (
    append-IsKeyed run_key r db.runs
        (no_conflict run_key (same_run r) r.run_id db.runs (λ s mine. ground arith) new) h.0,
    append-All (λ s. RunIsSound (metric_count s.run_id db) (artifact_count s.run_id db) s) db.runs r
        h.1 sound,
  )

  pub create_run-RunsAreSound :
      (digest : String → ℕ → String) (e : String) (now : ℕ) (db : RegistryDb Float)
      → RunsAreSound db
      → RunsAreSound (create_run digest e now db).1
  unfolding create_run
  create_run-RunsAreSound digest e now db h =
      let n = last_attempt e db.runs + 1 in
      let r = new_run (digest e n) e n now in
      ground (
        arith,
        h,
        add_run r db,
        new_run-RunIsSound (digest e n) e n now (metric_count (digest e n) db)
            (artifact_count (digest e n) db),
      )

  -- `mark_stale_runs` in one UPDATE.
  pub mark_stale_runs-eq :
      (t : ℕ) (db : RegistryDb Float)
      → IsKeyed run_key db.runs
      → mark_stale_runs t db ≡ (
        ok (sort_strings (map run_key (select_all (is_stale_before t) db.runs))),
        record db { runs = update (is_stale_before t) staled db.runs },
      )
  unfolding mark_stale_runs
  mark_stale_runs-eq t db keyed =
      let ids = map run_key (select_all (is_stale_before t) db.runs) in
      let same =
        update-cong (λ (r : ExperimentRunRecord). contains r.run_id (sort_strings ids))
          (λ r. contains r.run_id ids) staled db.runs (λ r. contains-sort_strings r.run_id ids)
        ∙ update-marked run_key (is_stale_before t) staled db.runs keyed in
      ap (λ rs. (ok (sort_strings ids), record db { runs = rs })) same

  pub mark_stale_runs-RunsAreSound :
      (t : ℕ) (db : RegistryDb Float) → RunsAreSound db → RunsAreSound (mark_stale_runs t db).1
  mark_stale_runs-RunsAreSound t db h = rw (mark_stale_runs-eq t db h.0) (
    update_any-IsKeyed run_key (is_stale_before t) staled db.runs (λ r. refl) h.0,
    update-All (λ r. RunIsSound (metric_count r.run_id db) (artifact_count r.run_id db) r)
        (λ r. RunIsSound (metric_count r.run_id db) (artifact_count r.run_id db) r)
        (is_stale_before t) staled db.runs (λ r s. s)
        (λ r s old.
          staled-RunIsSound t (metric_count r.run_id db) (artifact_count r.run_id db) r old s)
        h.1,
  )

  pub complete_all :
      (k digest : String) (now : ℕ) (db : RegistryDb Float)
      → str_eq digest "" ≡ false
      → (metric_count k db == 0) ≡ false
      → (artifact_count k db == 0) ≡ false
      → RunsAreSound db
      → RunsAreSound (record db { runs = update (has_run_id k) (run_completed digest now) db.runs })
  complete_all k digest now db given some_m some_a h =
      update-RunsAreSound db k (run_completed digest now) (λ s. refl)
        (λ s mine _.
          completed-RunIsSound digest now (metric_count s.run_id db) (artifact_count s.run_id db) s
            given (rw ((eq_iff s.run_id k).0 mine) some_m) (rw ((eq_iff s.run_id k).0 mine) some_a))
        h

-- The last sign of life of a run: its last beat, or else its start, or else its creation.
abbrev pub last_seen : Option ℕ → Option ℕ → ℕ → ℕ
last_seen (some beat) started created = beat
last_seen none (some started) created = started
last_seen none none created = created

-- A run that is RUNNING and whose last sign of life is before the time given.
abbrev pub IsSilent : ℕ → ExperimentRunRecord → Type 0
IsSilent t r =
    (r.status ≡ RunStatus.running)
    × (last_seen r.heartbeat_at_ms r.started_at_ms r.created_at_ms < t)

is_stale_before_iff :
    (t : ℕ) (r : ExperimentRunRecord) → (is_stale_before t r ≡ true) ↔ IsSilent t r
unfolding is_stale_before
is_stale_before_iff t r =
    (λ h. ground (arith, h), λ (running, before). ground (arith, running, before))

module _ {Float : Type 0} where
  -- With unique run ids there is a test that holds exactly for the RUNNING runs whose last sign of
  -- life is before the time given, such that `mark_stale_runs` returns the ids, in order, of the runs
  -- that pass it, makes these STALE and changes nothing else of them, of the other runs or of the
  -- registry.
  pub mark_stale_runs-exactly :
      (t : ℕ) (db : RegistryDb Float)
      → IsKeyed run_key db.runs
      → (silent : ExperimentRunRecord → Bool) × ((r : ExperimentRunRecord)
          → (silent r ≡ true) ↔ IsSilent t r)
        × (mark_stale_runs t db ≡ (
          ok (sort_strings (map (λ r. r.run_id) (select_all silent db.runs))),
          record db {
            runs = map (λ r. if silent r then record r { status = RunStatus.stale } else r) db.runs;
          },
        ))
  mark_stale_runs-exactly t db keyed = (
    is_stale_before t,
    is_stale_before_iff t,
    (mark_stale_runs-eq t db keyed
        ∙ ap
            (λ rs. (
              ok (sort_strings (map run_key (select_all (is_stale_before t) db.runs))),
              record db { runs = rs },
            ))
            (update-map (is_stale_before t) staled db.runs)),
  )
