-- ===== src/Tests/Session.antt =====
-- A session of two workers from the start of the program, its error log and the summary of a
-- verification.
use timberlake.Base.{
  ℕ, ◌≡◌, refl, true, false, List, [], ◌∷◌, Option, none, some, arith, if◌then◌else◌, length,
}
use timberlake.Io.{codes, ok, err, message, eq_text}
use timberlake.Base.Int.{pos}
use timberlake.Strings.Laws.{has_byte}
use timberlake.Sizes.{known_size}
use timberlake.Config.{AppConfig}
use timberlake.Program.{settings}
use timberlake.Ui.Model.{Status, Model}
use timberlake.Ui.Update.{
  by_status, record_history, cap_history, duration_of, is_done, is_catching_up, reset_worker,
  apply_status, worker_at, store_worker, max_ℤ, recalc_uploaded_bytes, all_finished, conclude,
  on_status, begin_catch_up, on_scan, on_bulk_complete,
}
use timberlake.Ui.Pool.{
  Settings, Pool, Sent, status, says, take_next, pass_gate, start_transfer, existing, is_complete,
  missing_text, after_stat, take_slot, release, forward, last_word, advance, step, run, numbered,
  started, upload_slots,
}
use timberlake.Ui.Pool.Once.{Worth}
use timberlake.Ui.Pool.Done.{deliver_all}
use timberlake.Ui.Start.{
  initial_model, scan_complete, begin_pool, pool_settings, new_workers, total_size,
}
use timberlake.Ui.Start.Whole.{ready}
use timberlake.Ui.ErrorLog.{LogSystem, destination_line, write_error_log}
use timberlake.Ui.ErrorLog.Lines.{Logged}
use timberlake.Ui.ErrorLog.Complete.{write_error_log-Logged, destination_line-empty}
use timberlake.Ui.Summary.{is_cancelled}
use timberlake.Ui.Summary.Verdict.{Agree, ending-Agrees}
use timberlake.Tests.Ui.{whole, scanned, begun}
use timberlake.Tests.Pool.{all_moves}
use timberlake.Tests.Program.{small_system, plain_flags, three_args}

destination_line-empty_example :
    destination_line (settings small_system plain_flags three_args) ≡ codes "Destination: s3:///"
destination_line-empty_example = destination_line-empty small_system plain_flags three_args

abbrev cfg : AppConfig
cfg = record {
  source_dir = codes "/data";
  destination = codes "s3://b/p";
  bucket = [];
  prefix = [];
  jobs = pos 2;
  upload_jobs = pos 1;
  part_size_mb = pos 5;
  max_retries = pos 5;
  endpoint_url = [];
  access_key = [];
  secret_key = [];
  use_ssl = true;
  s3_cfg_path = [];
  verify_only = false;
  dry_run = false;
  out_of_sync = false;
  sftp_password = [];
  sftp_key_path = [];
  sftp_insecure = false;
}

abbrev ready_model : Model ℕ
ready_model = ready whole 2 false 0 1 scanned.items (ok none)

abbrev the_settings : Settings
the_settings =
    pool_settings whole (λ e. codes "failed") (λ size want. codes "size mismatch") cfg ready_model

abbrev beginning : Pool
beginning = started 2 false scanned.items

abbrev pool_of : Option Pool → Pool
pool_of none = beginning
pool_of (some p) = p

pool_run : Option Pool
unfolding pool_settings upload_slots begin_pool on_scan begin_catch_up initial_model new_workers
    scan_complete total_size on_bulk_complete run step advance take_next pass_gate existing
    known_size is_complete missing_text after_stat says start_transfer take_slot release forward
    last_word numbered eq_text
pool_run = run the_settings all_moves beginning

-- One for the second file, and nothing for another.
abbrev the_second : Worth
the_second path size = if eq_text path (codes "b") then 1 else 0

abbrev disk : LogSystem
disk = record {
  create = λ name. ok tt;
  abs = λ name. err (message "no directory");
  write = λ k n. n;
  name_stamp = codes "20260729-120000";
  time_stamp = codes "2026-07-29T12:00:00Z";
  decimal = λ n. codes "1";
}

abbrev two_sent : List Sent
two_sent =
    status (record {
      worker_id = pos 0;
      status = Status.error;
      file_name = codes "a";
      err = codes "size mismatch";
      size = 5;
      queue_index = pos 0;
    })
    ∷ status (record {
      worker_id = pos 1;
      status = Status.skipped;
      file_name = codes "b";
      err = [];
      size = 7;
      queue_index = pos 1;
    })
    ∷ []

write_error_log-Logged_example :
    let m' = deliver_all whole (λ k. k) two_sent begun in
    Logged disk m'.errors (write_error_log disk cfg m') × (m'.failed_files ≡ length m'.errors)
unfolding begun on_scan begin_catch_up on_status conclude all_finished recalc_uploaded_bytes
    apply_status worker_at store_worker max_ℤ by_status record_history cap_history duration_of
    is_done is_catching_up reset_worker has_byte
write_error_log-Logged_example =
    write_error_log-Logged whole disk cfg (λ k. k) two_sent begun (omega arith) (omega arith)
      (omega arith) refl (λ k n. refl) (refl, refl, refl, refl, λ n. refl) (refl, refl, tt)

abbrev checking : AppConfig
checking = record cfg { verify_only = true }

ending-Agrees_example : Agree checking (deliver_all whole (λ k. k) two_sent begun)
unfolding begun on_scan begin_catch_up on_status conclude all_finished recalc_uploaded_bytes
    apply_status worker_at store_worker max_ℤ by_status record_history cap_history duration_of
    is_done is_catching_up reset_worker is_cancelled
ending-Agrees_example =
    ending-Agrees whole checking (λ k. k) two_sent begun refl (omega arith) (omega arith)
      (omega arith) refl refl

one_failed : (deliver_all whole (λ k. k) two_sent begun).failed_files ≡ 1
unfolding begun on_scan begin_catch_up on_status conclude all_finished recalc_uploaded_bytes
    apply_status worker_at store_worker max_ℤ by_status record_history cap_history duration_of
    is_done is_catching_up reset_worker
one_failed = refl
