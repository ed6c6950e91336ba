-- ===== src/Config.antt =====
-- config/config.go: the settings, the file of s3cmd, and the destinations of S3. The lines of the
-- file are what bufio.Scanner gives; home directory, path joining and opening are arguments.
pub mod Explicit
pub mod Destination
use timberlake.Base.{
  ℕ, Bool, true, false, ◌&&◌, ◌||◌, not, List, [], ◌∷◌, ◌++◌, Option, none, some, length, drop,
  if◌then◌else◌,
}
use timberlake.Base.Int.{ℤ}
use timberlake.Io.{Text, codes, eq_text, Error, message, wrapped, Result, ok, err}
use timberlake.Strings.{has_prefix, trim_prefix, trim_space, to_lower, cut}

pub record AppConfig : Type 0 where
  pub source_dir : Text
  pub destination : Text
  pub bucket : Text
  pub prefix : Text
  pub jobs : ℤ
  pub upload_jobs : ℤ
  pub part_size_mb : ℤ
  pub max_retries : ℤ
  pub endpoint_url : Text
  pub access_key : Text
  pub secret_key : Text
  pub use_ssl : Bool
  pub s3_cfg_path : Text
  pub verify_only : Bool
  pub dry_run : Bool
  pub out_of_sync : Bool
  pub sftp_password : Text
  pub sftp_key_path : Text
  pub sftp_insecure : Bool

-- The cases of the switch on the key.
pub data Entry : Type 0 where
  access_entry secret_entry host_base use_https other_entry : Entry

unfoldable pub entry_of : Text → Entry
entry_of key =
    if eq_text key (codes "access_key")
    then access_entry
    else if eq_text key (codes "secret_key")
    then secret_entry
    else if eq_text key (codes "host_base")
    then host_base
    else if eq_text key (codes "use_https")
    then use_https
    else other_entry

abbrev pub or_else : Text → Text → Text
or_else [] v = v
or_else (c ∷ cs) v = c ∷ cs

-- The URL of a host, with the scheme that UseSSL says unless it has one.
unfoldable pub endpoint_of : Bool → Text → Text
endpoint_of use_ssl val =
    if not (has_prefix (codes "http://") val) && not (has_prefix (codes "https://") val)
    then (if use_ssl then codes "https://" else codes "http://") ++ val
    else val

-- strings.Replace(url, "http://", "https://", 1), where the URL starts with it.
unfoldable pub secure_url : Bool → Text → Text
secure_url use_ssl url =
    if has_prefix (codes "http://") url && use_ssl
    then codes "https://" ++ drop (length (codes "http://")) url
    else url

unfoldable pub says_true : Text → Bool
says_true v = eq_text v (codes "true") || eq_text v (codes "1") || eq_text v (codes "yes")

unfoldable pub apply_entry : AppConfig → Entry → Text → AppConfig
unfolding endpoint_of secure_url says_true
apply_entry cfg access_entry val = record cfg { access_key = or_else cfg.access_key val }
apply_entry cfg secret_entry val = record cfg { secret_key = or_else cfg.secret_key val }
apply_entry cfg host_base val = record cfg {
  endpoint_url = or_else cfg.endpoint_url (endpoint_of cfg.use_ssl val);
}
apply_entry cfg use_https val =
    let on = says_true (to_lower val) in
    record cfg { use_ssl = on; endpoint_url = secure_url on cfg.endpoint_url }
apply_entry cfg other_entry val = cfg

unfoldable pub is_comment : Text → Bool
is_comment line = has_prefix (codes "#") line || has_prefix (codes ";") line

unfoldable pub apply_parts : AppConfig → Option (Text × Text) → AppConfig
unfolding apply_entry entry_of
apply_parts cfg none = cfg
apply_parts cfg (some (key, val)) =
    apply_entry cfg (entry_of (to_lower (trim_space key))) (trim_space val)

unfoldable pub apply_line : AppConfig → Text → AppConfig
unfolding is_comment apply_parts
apply_line cfg line = if is_comment line then cfg else apply_parts cfg (cut b'=' line)

-- The loop over the lines, each trimmed; an empty line has no "=".
unfoldable pub apply_lines : AppConfig → List Text → AppConfig
unfolding apply_line
apply_lines cfg [] = cfg
apply_lines cfg (line ∷ lines) = apply_lines (apply_line cfg (trim_space line)) lines

-- What the file system and the scanner answer.
pub record Files : Type 0 where
  pub home : Result Text
  pub join : Text → Text → Text
  pub open_lines : Text → Result (List Text × Option Error)

unfoldable pub cfg_path : Files → Text → Text
cfg_path fs (c ∷ cs) = c ∷ cs
cfg_path fs [] = elim fs.home [ ok h ↦ fs.join h (codes ".s3cfg") | err e ↦ [] ]

unfoldable pub read_cfg :
    AppConfig → Result (List Text × Option Error) → AppConfig × Result (Unit {0})
read_cfg cfg (err e) = (cfg, err (wrapped "could not open s3cfg file" e))
read_cfg cfg (ok (lines, none)) = (apply_lines cfg lines, ok tt)
read_cfg cfg (ok (lines, some e)) = (apply_lines cfg lines, err e)

unfoldable pub parse_s3cfg : Files → Text → AppConfig → AppConfig × Result (Unit {0})
unfolding read_cfg cfg_path
parse_s3cfg fs path cfg = read_cfg cfg (fs.open_lines (cfg_path fs path))

-- parts[0] and the prefix of a destination, after its scheme.
unfoldable pub bucket_of : Text → Option (Text × Text) → Text × Text
bucket_of trimmed none = (trimmed, [])
bucket_of trimmed (some (bucket, rest)) = (bucket, trim_prefix (codes "/") rest)

unfoldable pub check_bucket : Text × Text → Result (Text × Text)
check_bucket ([], prefix) = err (message "invalid destination s3:// URI: missing bucket name")
check_bucket (c ∷ cs, prefix) = ok (c ∷ cs, prefix)

unfoldable pub parse_destination : Text → Result (Text × Text)
unfolding bucket_of check_bucket
parse_destination dest =
    if has_prefix (codes "s3://") dest
    then check_bucket
        (bucket_of (trim_prefix (codes "s3://") dest) (cut b'/' (trim_prefix (codes "s3://") dest)))
    else err (message "destination must start with s3://")
