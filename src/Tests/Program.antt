-- ===== src/Tests/Program.antt =====
-- A run of flags over the file and the environment, and the exit status of a verification.
use timberlake.Base.{◌≡◌, ◌⊎◌, true, false, List, [], ◌∷◌, ◌++◌, none, some}
use timberlake.Base.Int.{pos}
use timberlake.Io.{Text, codes, ok, err, message}
use timberlake.Program.{Flags, System, settings, World, run, exit_status}
use timberlake.Program.Ending.{EndsWell, exit_status-EndsWell}

abbrev pub plain_flags : Flags
plain_flags = record {
  jobs = pos 4;
  upload_jobs = pos 0;
  part_size = pos 5;
  endpoint = some (codes "http://h");
  access_key = some (codes "me");
  secret_key = none;
  no_ssl = true;
  dry_run = false;
  verify_only = true;
  s3cfg = [];
  sftp_password = [];
  sftp_key = [];
  sftp_insecure = false;
  out_of_sync = false;
}

abbrev pub small_system : System
small_system = record {
  getenv = λ name. codes "from the environment";
  is_there = λ path. true;
  atoi = λ text. some (pos 8);
  files = record {
    home = ok (codes "/root");
    join = λ dir name. dir ++ codes "/" ++ name;
    open_lines = λ path. ok (codes "access_key = other" ∷ codes "use_https = yes" ∷ [], none);
  };
}

abbrev pub three_args : List Text
three_args = codes "/data" ∷ codes "s3://b/p" ∷ codes "8" ∷ []

-- Backends are texts, and the destination cannot be opened.
abbrev closed_world : World Text
closed_world = record {
  open_source = λ uri cfg. ok uri;
  open_dest = λ uri cfg. err (message "permission denied");
  demo_pair = λ spec. (spec, spec);
  run_ui = λ cfg source dest. ok (some []);
}

exit_status-EndsWell_example :
    let cfg = settings small_system plain_flags three_args in
    let status = exit_status (run closed_world cfg false []) in
    ((status ≡ 0) × EndsWell closed_world cfg false [])
    ⊎ ((status ≡ 1) × ¬ EndsWell closed_world cfg false [])
exit_status-EndsWell_example =
    exit_status-EndsWell closed_world (settings small_system plain_flags three_args) false []
