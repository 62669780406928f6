-- ===== src/Recorder/RecoverySamples.antt =====
-- A file in flight and an orphan, for the recovery of the recorder.
use binance_algo.Base.{String, true, none, some, List, [], ◌∷◌, ok, ◌≡◌, refl, length, ◌+◌, All}
use binance_algo.Table.{select}
use binance_algo.Manifest.{DataFileRecord, downloading, validated}
use binance_algo.StateStore.Files.{find_file, data_file_from_row}
use binance_algo.StateStore.Integrity.{IsConsistent}
use binance_algo.StateStore.Listing.{list_data_files, every_file}
use binance_algo.Streams.Json.{◌>>=◌}
use binance_algo.Streams.Schemas.{stream_schema, mark_price}
use binance_algo.Recorder.Inspection.{
  FrameRow, Inspected, inspect, after_usdm, event_type_of, same_schema, distinct,
}
use binance_algo.Recorder.Recovery.{Files, Recovery, recover_inflight, recover_orphan}
use binance_algo.Recorder.InFlight.{Recovered}
use binance_algo.Recorder.Pass.{recover_inflight-settles}
use binance_algo.Recorder.Orphans.{recover_orphan-adopts}

abbrev price_row : FrameRow
price_row = record {
  event_id = "e1";
  symbol = "BTCUSDT";
  event_time_ms = 10;
  received_time_ns = 11;
  ingestion_run_id = "r1";
}

abbrev sample_files : Files
sample_files = record {
  parts = λ path. "raw" ∷ "usdm" ∷ "mark_price" ∷ path ∷ [];
  read = λ path. some (record { schema = stream_schema mark_price; rows = price_row ∷ [] });
  sha256_file = λ path. some "abc";
  moves = λ path. true;
  file_id = λ path. path;
  now = λ path. 20;
  clock = λ k. record { downloaded_at = 21; validated_at = 22; checkpoint_at = 23; failed_at = 24 };
  message = λ e. "invalid";
  dumps = λ c. c.event_id;
}

abbrev started_file : DataFileRecord
started_file = record {
  file_id = "f1";
  logical_dataset = "mark_price";
  layer = "raw";
  source = "binance_market_stream";
  symbol = "BTCUSDT";
  interval = "1s";
  start_time_ms = 10;
  end_time_ms = 10;
  row_count = none;
  schema_version = 1;
  checksum = none;
  path = "p1";
  status = downloading;
  created_at_ms = 12;
  updated_at_ms = 12;
  ingestion_run_id = "r1";
  parent_file_ids_json = "[]";
  last_error = none;
}

abbrev interrupted : Recovery
interrupted = record {
  db = record {
    data_files = started_file ∷ [];
    backfill_jobs = [];
    stream_checkpoints = [];
    quality_results = [];
    schema_versions = [];
  };
  disk = record { temporaries = "t1" ∷ []; parquets = "p1" ∷ "p2" ∷ []; in_quarantine = [] };
  stats = record {
    temporary_files_quarantined = 0;
    orphan_files_recovered = 0;
    inflight_files_recovered = 0;
    invalid_files_quarantined = 0;
  };
}

interrupted-IsConsistent : IsConsistent interrupted.db
unfolding select
interrupted-IsConsistent = record { files = (refl, tt); jobs = tt; checkpoints = tt; results = tt }

recover_inflight-settles_example :
    (after : Recovery) × (recover_inflight sample_files
        (list_data_files every_file interrupted.db)
        interrupted
      ≡ (ok tt, after))
    × All
        (λ r. Recovered sample_files interrupted after (data_file_from_row r))
        interrupted.db.data_files
recover_inflight-settles_example =
    recover_inflight-settles sample_files interrupted (λ path. ("abc", refl))
      interrupted-IsConsistent

abbrev inspected_price : Inspected
inspected_price = record {
  first = price_row;
  rest = [];
  event_type = mark_price;
  symbol = "BTCUSDT";
  run_id = "r1";
}

recover_orphan-adopts_example :
    (after : Recovery) × (recover_orphan sample_files "p2" interrupted ≡ (ok tt, after))
    × (file : DataFileRecord) × (find_file "p2" after.db ≡ some file)
    × (file.status ≡ validated)
    × (file.checksum ≡ some "abc")
    × (file.row_count ≡ some (length inspected_price.rest + 1))
    × (after.disk ≡ interrupted.disk)
unfolding inspect after_usdm event_type_of same_schema distinct stream_schema ◌>>=◌ select
recover_orphan-adopts_example =
    recover_orphan-adopts sample_files "p2" inspected_price "abc" interrupted refl refl refl

abbrev concatenated : List String → String
concatenated ss = ""
