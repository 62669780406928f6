-- ===== src/Manifest.antt =====
-- data/manifest.py: the records of the operational manifest and their state machines.
use binance_algo.Base.{ℕ, String, Option, Bool, true, false, ◌==◌}

pub data DataFileStatus : Type 0 where
  downloading downloaded validated normalized compacted quarantined failed : DataFileStatus

pub data BackfillJobStatus : Type 0 where
  pending running completed failed : BackfillJobStatus

abbrev file_index : DataFileStatus → ℕ
file_index downloading = 0
file_index downloaded = 1
file_index validated = 2
file_index normalized = 3
file_index compacted = 4
file_index quarantined = 5
file_index DataFileStatus.failed = 6

abbrev job_index : BackfillJobStatus → ℕ
job_index pending = 0
job_index running = 1
job_index completed = 2
job_index BackfillJobStatus.failed = 3

-- Equality of members of the enumerations.
abbrev pub file_status_eq : DataFileStatus → DataFileStatus → Bool
file_status_eq a b = file_index a == file_index b

abbrev pub job_status_eq : BackfillJobStatus → BackfillJobStatus → Bool
job_status_eq a b = job_index a == job_index b

-- `new in ALLOWED_FILE_TRANSITIONS[current]`
unfoldable pub allowed_file_transition : DataFileStatus → DataFileStatus → Bool
allowed_file_transition downloading downloaded = true
allowed_file_transition downloading DataFileStatus.failed = true
allowed_file_transition downloading quarantined = true
allowed_file_transition downloaded validated = true
allowed_file_transition downloaded DataFileStatus.failed = true
allowed_file_transition downloaded quarantined = true
allowed_file_transition validated normalized = true
allowed_file_transition validated DataFileStatus.failed = true
allowed_file_transition validated quarantined = true
allowed_file_transition normalized compacted = true
allowed_file_transition normalized DataFileStatus.failed = true
allowed_file_transition normalized quarantined = true
allowed_file_transition compacted quarantined = true
allowed_file_transition quarantined downloading = true
allowed_file_transition DataFileStatus.failed downloading = true
allowed_file_transition _ _ = false

-- `new in ALLOWED_JOB_TRANSITIONS[current]`
unfoldable pub allowed_job_transition : BackfillJobStatus → BackfillJobStatus → Bool
allowed_job_transition pending running = true
allowed_job_transition pending BackfillJobStatus.failed = true
allowed_job_transition running completed = true
allowed_job_transition running BackfillJobStatus.failed = true
allowed_job_transition _ _ = false

pub record DataFileRecord : Type 0 where
  pub file_id : String
  pub logical_dataset : String
  pub layer : String
  pub source : String
  pub symbol : String
  pub interval : String
  pub start_time_ms : ℕ
  pub end_time_ms : ℕ
  pub row_count : Option ℕ
  pub schema_version : ℕ
  pub checksum : Option String
  pub path : String
  pub status : DataFileStatus
  pub created_at_ms : ℕ
  pub updated_at_ms : ℕ
  pub ingestion_run_id : String
  pub parent_file_ids_json : String
  pub last_error : Option String

pub record BackfillJobRecord : Type 0 where
  pub job_id : String
  pub dataset : String
  pub symbols_json : String
  pub interval : String
  pub start_date : String
  pub end_date : String
  pub status : BackfillJobStatus
  pub total_files : ℕ
  pub completed_files : ℕ
  pub failed_files : ℕ
  pub created_at_ms : ℕ
  pub updated_at_ms : ℕ
  pub last_error : Option String
