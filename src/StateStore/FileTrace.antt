-- ===== src/StateStore/FileTrace.antt =====
-- The status of a file of data/state_store.py at every call of a history.
use binance_algo.Base.{◌≡◌, ◌⊎◌, arith, String, List, [], ◌∷◌, Option, none, some}
use binance_algo.Manifest.{
  DataFileRecord, allowed_file_transition, DataFileStatus, downloading, downloaded, validated,
  normalized, compacted, quarantined,
}
use binance_algo.StateStore.FileHistory.{Follows, call-Follows}
use binance_algo.StateStore.FileMachine.{FileMove}
use binance_algo.StateStore.Ops.{StoreCall, call}
use binance_algo.StateStore.Files.{find_file}
use binance_algo.StateStore.Schema.{StateDb}

-- A file that is refused.
abbrev pub IsRefused : DataFileStatus → Type 0
IsRefused t = (t ≡ DataFileStatus.failed) ⊎ (t ≡ quarantined)

-- What may follow a status in one call: the status itself, the next stage, or a refusal.
abbrev pub FileStep : DataFileStatus → DataFileStatus → Type 0
FileStep downloading t = (t ≡ downloading) ⊎ (t ≡ downloaded) ⊎ IsRefused t
FileStep downloaded t = (t ≡ downloaded) ⊎ (t ≡ validated) ⊎ IsRefused t
FileStep validated t = (t ≡ validated) ⊎ (t ≡ normalized) ⊎ IsRefused t
FileStep normalized t = (t ≡ normalized) ⊎ (t ≡ compacted) ⊎ IsRefused t
FileStep compacted t = (t ≡ compacted) ⊎ (t ≡ quarantined)
FileStep quarantined t = (t ≡ quarantined) ⊎ (t ≡ downloading)
FileStep DataFileStatus.failed t = (t ≡ DataFileStatus.failed) ⊎ (t ≡ downloading)

FileMove-FileStep : (s t : DataFileStatus) → FileMove s t → FileStep s t
unfolding allowed_file_transition
FileMove-FileStep downloading t h = ground (arith, h)
FileMove-FileStep downloaded t h = ground (arith, h)
FileMove-FileStep validated t h = ground (arith, h)
FileMove-FileStep normalized t h = ground (arith, h)
FileMove-FileStep compacted t h = ground (arith, h)
FileMove-FileStep quarantined t h = ground (arith, h)
FileMove-FileStep DataFileStatus.failed t h = ground (arith, h)

-- A file is there still, and its status has made one step at most.
abbrev pub FileSteps : Option DataFileRecord → Option DataFileRecord → Type 0
FileSteps none after = Unit
FileSteps (some r) none = ⊥
FileSteps (some r) (some s) = FileStep r.status s.status

Follows-FileSteps : (o after : Option DataFileRecord) → Follows o after → FileSteps o after
Follows-FileSteps none after h = tt
Follows-FileSteps (some r) none h = h
Follows-FileSteps (some r) (some s) h = FileMove-FileStep r.status s.status h

module _ (sha256 : List String → String) where
  -- Every call of the history leaves every file with at most one step.
  abbrev pub EachSteps : List StoreCall → StateDb → Type 0
  EachSteps [] db = Unit
  EachSteps (c ∷ cs) db =
      ((k : String) → FileSteps (find_file k db) (find_file k (call sha256 c db)))
      × EachSteps cs (call sha256 c db)

  -- Whatever is called, and whichever calls raise: each single call leaves every registered file
  -- registered, and its status stays, makes one step along DOWNLOADING, DOWNLOADED, VALIDATED,
  -- NORMALIZED and COMPACTED, becomes QUARANTINED, or FAILED if it was not COMPACTED, or goes back
  -- from one of these two to DOWNLOADING.
  pub run-EachSteps : (calls : List StoreCall) (db : StateDb) → EachSteps calls db
  run-EachSteps [] db = tt
  run-EachSteps (c ∷ cs) db = (
    λ k.
        Follows-FileSteps (find_file k db) (find_file k (call sha256 c db))
          (call-Follows sha256 c k db),
    run-EachSteps cs (call sha256 c db),
  )
