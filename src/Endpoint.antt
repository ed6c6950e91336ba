-- ===== src/Endpoint.antt =====
-- `ParseEndpoint` of transfer/transfer.go, and the choice of a backend in backends/backends.go.
-- url.Parse is an argument, and so are the constructors of the backends.
pub mod Form
use timberlake.Base.{ℕ, Bool, true, false, List, [], ◌∷◌, Option, none, some, if◌then◌else◌}
use timberlake.Io.{Text, codes, Error, message, wrapped, Result, ok, err, ◌>>=◌, context}
use timberlake.Strings.{has_prefix, trim_prefix, trim}

-- What is read of a url.URL; `user` is u.User.Username(), if u.User is not nil.
pub record Url : Type 0 where
  pub host : Text
  pub hostname : Text
  pub port : Text
  pub path : Text
  pub user : Option Text

pub data Scheme : Type 0 where
  local s3 sftp : Scheme

pub record Endpoint : Type 0 where
  pub scheme : Scheme
  pub raw : Text
  pub root : Text
  pub bucket : Text
  pub prefix : Text
  pub user : Text
  pub host : Text
  pub port : Text
  pub path : Text

-- The zero values of the fields that a literal does not name.
abbrev pub no_endpoint : Scheme → Text → Endpoint
no_endpoint scheme raw = record {
  scheme = scheme;
  raw = raw;
  root = [];
  bucket = [];
  prefix = [];
  user = [];
  host = [];
  port = [];
  path = [];
}

-- v, or the default if v is "".
unfoldable pub or_default : Text → Text → Text
or_default d [] = d
or_default d (c ∷ cs) = c ∷ cs

abbrev pub user_of : Option Text → Text
user_of none = []
user_of (some name) = name

unfoldable pub s3_endpoint : Text → Url → Text → Result Endpoint
s3_endpoint raw u [] = err (message "invalid s3 URI: missing bucket")
s3_endpoint raw u (c ∷ cs) =
    ok (record (no_endpoint s3 raw) { bucket = c ∷ cs; prefix = trim b'/' u.path })

unfoldable pub sftp_endpoint : Text → Url → Text → Result Endpoint
unfolding or_default
sftp_endpoint raw u [] = err (message "invalid sftp URI: missing host")
sftp_endpoint raw u (c ∷ cs) = ok (record (no_endpoint sftp raw) {
  user = user_of u.user;
  host = c ∷ cs;
  port = or_default (codes "22") u.port;
  path = or_default (codes ".") u.path;
})

module _ (parse_url : Text → Result Url) where
  unfoldable pub parse_endpoint : Text → Result Endpoint
  unfolding s3_endpoint sftp_endpoint
  parse_endpoint raw =
      if has_prefix (codes "s3://") raw
      then (do u ← context "invalid s3 URI" (parse_url raw); s3_endpoint raw u u.host)
      else if has_prefix (codes "sftp://") raw
      then (do u ← context "invalid sftp URI" (parse_url raw); sftp_endpoint raw u u.hostname)
      else ok (record (no_endpoint local raw) { root = trim_prefix (codes "file://") raw })

  -- The constructors of the three backends.
  pub record Makers (B : Type 0) : Type 0 where
    pub make_local : Text → Result B
    pub make_s3 : Endpoint → Result B
    pub make_sftp : Endpoint → Result B

  unfoldable pub make : {B : Type 0} → Makers B → Scheme → Endpoint → Result B
  make mk local ep = mk.make_local ep.root
  make mk s3 ep = mk.make_s3 ep
  make mk sftp ep = mk.make_sftp ep

  -- NewSource and NewDestination, which differ in their types only.
  unfoldable pub new_backend : {B : Type 0} → Makers B → Text → Result B
  unfolding make
  new_backend mk uri = do ep ← parse_endpoint uri; make mk ep.scheme ep
