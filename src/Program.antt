-- ===== src/Program.antt =====
-- main.go: the settings from the flags, the arguments, the file of s3cmd and the environment, and
-- how `run` ends. The flags are what cobra has parsed: `none` for a flag that is not given and whose
-- default is read from the environment; the terminal interface is an argument.
pub mod Ending
use timberlake.Base.{
  ℕ, ◌+◌, Bool, true, false, ◌&&◌, not, List, [], ◌∷◌, Option, none, some, ltb, length,
  if◌then◌else◌,
}
use timberlake.Base.Int.{ℤ, pos, ltb_ℤ}
use timberlake.Io.{Text, codes, Error, message, wrapped, Result, ok, err, ◌>>=◌, context}
use timberlake.Config.{AppConfig, Files, parse_s3cfg, or_else}
use timberlake.Ui.Model.{FileError}

-- The variables of newRootCmd; `s3cfg` is the flag or its default, `none` of an Option a flag that is
-- not given.
pub record Flags : Type 0 where
  pub jobs : ℤ
  pub upload_jobs : ℤ
  pub part_size : ℤ
  pub endpoint : Option Text
  pub access_key : Option Text
  pub secret_key : Option Text
  pub no_ssl : Bool
  pub dry_run : Bool
  pub verify_only : Bool
  pub s3cfg : Text
  pub sftp_password : Text
  pub sftp_key : Text
  pub sftp_insecure : Bool
  pub out_of_sync : Bool

-- os.Getenv, whether os.Stat finds a path, and strconv.Atoi.
pub record System : Type 0 where
  pub getenv : Text → Text
  pub is_there : Text → Bool
  pub atoi : Text → Option ℤ
  pub files : Files

unfoldable pub source_and_dest : List Text → Text × Text
source_and_dest (a ∷ b ∷ rest) = (a, b)
source_and_dest _ = (codes "demo://source", codes "demo://destination")

abbrev pub positive_or : ℤ → Option ℤ → ℤ
positive_or jobs none = jobs
positive_or jobs (some j) = if ltb_ℤ (pos 0) j then j else jobs

-- The third argument, if it is a positive number.
unfoldable pub jobs_of : System → ℤ → List Text → ℤ
jobs_of sys jobs (a ∷ b ∷ c ∷ []) = positive_or jobs (sys.atoi c)
jobs_of sys jobs _ = jobs

-- A flag of newRootCmd with os.Getenv(name) as its default.
unfoldable pub flag_or_env : System → Text → Option Text → Text
flag_or_env sys name none = sys.getenv name
flag_or_env sys name (some value) = value

unfoldable pub initial_config : System → Flags → List Text → AppConfig
unfolding source_and_dest jobs_of flag_or_env
initial_config sys f args = record {
  source_dir = (source_and_dest args).0;
  destination = (source_and_dest args).1;
  bucket = [];
  prefix = [];
  jobs = jobs_of sys f.jobs args;
  upload_jobs = f.upload_jobs;
  part_size_mb = f.part_size;
  max_retries = pos 0;
  endpoint_url = flag_or_env sys (codes "AWS_ENDPOINT_URL") f.endpoint;
  access_key = flag_or_env sys (codes "AWS_ACCESS_KEY_ID") f.access_key;
  secret_key = flag_or_env sys (codes "AWS_SECRET_ACCESS_KEY") f.secret_key;
  use_ssl = not f.no_ssl;
  s3_cfg_path = f.s3cfg;
  verify_only = f.verify_only;
  dry_run = f.dry_run;
  out_of_sync = f.out_of_sync;
  sftp_password = f.sftp_password;
  sftp_key_path = f.sftp_key;
  sftp_insecure = f.sftp_insecure;
}

unfoldable pub with_file : System → Text → AppConfig → AppConfig
with_file sys s3cfg cfg = if sys.is_there s3cfg then (parse_s3cfg sys.files s3cfg cfg).0 else cfg

unfoldable pub with_env : System → AppConfig → AppConfig
with_env sys cfg = record cfg {
  access_key = or_else cfg.access_key (sys.getenv (codes "AWS_ACCESS_KEY_ID"));
  secret_key = or_else cfg.secret_key (sys.getenv (codes "AWS_SECRET_ACCESS_KEY"));
  endpoint_url = or_else cfg.endpoint_url (sys.getenv (codes "AWS_ENDPOINT_URL"));
}

-- RunE, up to its call of run.
unfoldable pub settings : System → Flags → List Text → AppConfig
unfolding initial_config with_file with_env
settings sys f args = with_env sys (with_file sys f.s3cfg (initial_config sys f args))

-- The model at the end, if it is a ui.Model: its errors.
abbrev pub Final : Type 0
Final = Option (List FileError)

-- After the summary and the error log.
unfoldable pub verdict : Bool → Final → Result (Unit {0})
verdict verify_only none = ok tt
verdict verify_only (some errors) =
    if verify_only && ltb 0 (length errors)
    then err (message "verification found discrepancies")
    else ok tt

-- What the rest of the program does: the backends, and the terminal interface over them.
pub record World (B : Type 0) : Type 0 where
  pub open_source : Text → AppConfig → Result B
  pub open_dest : Text → AppConfig → Result B
  pub demo_pair : Text → B × B
  pub run_ui : AppConfig → B → B → Result Final

unfoldable pub open_pair : {B : Type 0} → World B → AppConfig → Bool → Text → Result (B × B)
open_pair w cfg true spec = ok (w.demo_pair spec)
open_pair w cfg false spec = do
  source ← context "opening source" (w.open_source cfg.source_dir cfg)
  dest ← context "opening destination" (w.open_dest cfg.destination cfg)
  ok (source, dest)

unfoldable pub run : {B : Type 0} → World B → AppConfig → Bool → Text → Result (Unit {0})
unfolding open_pair verdict
run w cfg demo_mode spec = do
  pair ← open_pair w cfg demo_mode spec
  final ← context "UI error" (w.run_ui cfg pair.0 pair.1)
  verdict cfg.verify_only final

-- os.Exit(1) on an error.
unfoldable pub exit_status : Result (Unit {0}) → ℕ
exit_status (ok u) = 0
exit_status (err e) = 1
