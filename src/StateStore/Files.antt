-- ===== src/StateStore/Files.antt =====
-- The methods of data/state_store.py on the data files and the stream checkpoints.
use binance_algo.Base.{
  ℕ, String, Bool, Option, none, some, List, ◌&&◌, ◌||◌, not, str_eq, if◌then◌else◌, coalesce,
  is_some,
}
use binance_algo.Table.{select, update, insert_or_ignore}
use binance_algo.Transaction.{
  Exec, pure, gets, modify, raise_if, or_raise, transaction, ◌>>=◌, ◌>>◌,
}
use binance_algo.Manifest.{
  DataFileRecord, DataFileStatus, downloaded, validated, file_status_eq, allowed_file_transition,
}
use binance_algo.StateStore.Schema.{
  StateDb, CheckpointRow, StoreError, file_disappeared, file_id_collision, unknown_data_file,
  invalid_file_transition,
}

abbrev pub Action : Type 0 → Type 0
Action = Exec StateDb StoreError

-- `WHERE file_id = ?`
abbrev pub has_file_id : String → DataFileRecord → Bool
has_file_id k r = str_eq r.file_id k

-- The primary key and `UNIQUE` on the path.
abbrev pub same_file : DataFileRecord → DataFileRecord → Bool
same_file r s = str_eq s.file_id r.file_id || str_eq s.path r.path

-- `if values["last_error"] else None`: an empty message reads as no message.
abbrev truthy : Option String → Option String
truthy none = none
truthy (some s) = if str_eq s "" then none else some s

-- `_data_file_from_row`
abbrev pub data_file_from_row : DataFileRecord → DataFileRecord
data_file_from_row r = record r { last_error = truthy r.last_error }

abbrev pub find_file : String → StateDb → Option DataFileRecord
find_file k db = select (has_file_id k) db.data_files

abbrev collides : DataFileRecord → DataFileRecord → Bool
collides existing r =
    not (str_eq existing.path r.path)
    || not (str_eq existing.logical_dataset r.logical_dataset)
    || not (str_eq existing.symbol r.symbol)
    || not (str_eq existing.interval r.interval)

-- The check for a collision stands after the commit.
unfoldable pub register_data_file : DataFileRecord → Action DataFileRecord
unfolding select insert_or_ignore
register_data_file r = do
  row ← transaction (do
    modify (λ db. record db { data_files = insert_or_ignore same_file r db.data_files })
    gets (find_file r.file_id))
  found ← or_raise row (file_disappeared r.file_id)
  let existing = data_file_from_row found
  raise_if (collides existing r) (file_id_collision r.file_id)
  pure existing

unfoldable pub get_data_file : String → Action (Option DataFileRecord)
get_data_file k =
    gets (λ db. elim (find_file k db) [ none ↦ none | some r ↦ some (data_file_from_row r) ])

-- `SET status = ?, checksum = COALESCE(?, checksum), …`
abbrev pub transitioned :
    DataFileStatus → Option String → Option ℕ → Option String → ℕ → DataFileRecord → DataFileRecord
transitioned status checksum row_count last_error now r = record r {
  status = status;
  checksum = coalesce checksum r.checksum;
  row_count = coalesce row_count r.row_count;
  updated_at_ms = now;
  last_error = last_error;
}

-- `new_status != current and new_status not in ALLOWED_FILE_TRANSITIONS[current]`
unfoldable pub file_move_refused : DataFileStatus → DataFileStatus → Bool
file_move_refused current new =
    not (file_status_eq new current) && not (allowed_file_transition current new)

-- `current not in {DataFileStatus.DOWNLOADED, DataFileStatus.VALIDATED}`
unfoldable pub validation_refused : DataFileStatus → Bool
validation_refused current =
    not (file_status_eq current downloaded || file_status_eq current validated)

unfoldable pub transition_data_file :
    String → DataFileStatus → Option String → Option ℕ → Option String → ℕ → Action DataFileRecord
transition_data_file k new checksum row_count last_error now = do
  updated ← transaction (do
    row ← gets (find_file k)
    r ← or_raise row (unknown_data_file k)
    raise_if (file_move_refused r.status new) (invalid_file_transition k r.status new)
    modify (λ db. record db {
      data_files =
          update (has_file_id k) (transitioned new checksum row_count last_error now) db.data_files;
    })
    gets (find_file k))
  r ← or_raise updated (file_disappeared k)
  pure (data_file_from_row r)

abbrev pub has_stream_key : String → CheckpointRow → Bool
has_stream_key k c = str_eq c.stream_key k

-- `INSERT … ON CONFLICT(stream_key) DO UPDATE SET …`
abbrev pub upserted : String → String → ℕ → List CheckpointRow → List CheckpointRow
upserted k json now rows =
    if is_some (select (has_stream_key k) rows)
    then update (has_stream_key k) (λ c. record c { checkpoint_json = json; updated_at_ms = now })
        rows
    else insert_or_ignore (λ c d. str_eq d.stream_key c.stream_key)
        (record { stream_key = k; checkpoint_json = json; updated_at_ms = now }) rows

unfoldable pub get_stream_checkpoint : String → StateDb → Option String
get_stream_checkpoint k db = elim (select (has_stream_key k) db.stream_checkpoints) [
  | none ↦ none
  | some c ↦ some c.checkpoint_json
]

unfoldable pub upsert_stream_checkpoint : String → String → ℕ → Action (Unit {0})
upsert_stream_checkpoint k json now =
    transaction
      (modify (λ db. record db { stream_checkpoints = upserted k json now db.stream_checkpoints }))

-- The first clock value stamps the file, the second the checkpoint.
unfoldable pub validate_stream_file_with_checkpoint :
    String → String → ℕ → String → String → ℕ → ℕ → Action DataFileRecord
validate_stream_file_with_checkpoint k checksum row_count stream_key json now later = do
  updated ← transaction (do
    row ← gets (find_file k)
    r ← or_raise row (unknown_data_file k)
    raise_if (validation_refused r.status) (invalid_file_transition k r.status validated)
    modify (λ db. record db {
      data_files =
          update (has_file_id k) (transitioned validated (some checksum) (some row_count) none now)
            db.data_files;
      stream_checkpoints = upserted stream_key json later db.stream_checkpoints;
    })
    gets (find_file k))
  r ← or_raise updated (file_disappeared k)
  pure (data_file_from_row r)
