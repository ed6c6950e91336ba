-- ===== src/Web/Install.antt =====
-- web/install.go: the assisted install of cloudflared. The platform and the answers of the network
-- and of the file system are arguments, and so are SHA-256 and the archive readers; what is modelled
-- is what reaches ManagedPath, and the state that the interface shows.
pub mod Verified
use timberlake.Base.{
  ℕ, ◌+◌, ◌-◌, ◌*◌, Bool, true, false, ◌&&◌, not, List, [], ◌∷◌, ◌++◌, Option, none, some, leb,
  ◌==◌, length, if◌then◌else◌,
}
use timberlake.Base.Words.{add64}
use timberlake.Io.{
  Text, codes, eq_text, Error, eof, message, wrapped, Result, ok, err, ◌>>=◌, context, Reader,
  copy_n,
}

-- cfAsset
pub record Asset : Type 0 where
  pub name : Text
  pub sha256 : Text
  pub tgz : Bool

unfoldable pub find_asset : Text → List (Text × Asset) → Option Asset
find_asset platform [] = none
find_asset platform ((p, a) ∷ more) =
    if eq_text p platform then some a else find_asset platform more

-- cfAssets
unfoldable pub assets : List (Text × Asset)
assets =
    (
      codes "darwin/arm64",
      record {
        name = codes "cloudflared-darwin-arm64.tgz";
        sha256 = codes "90c5a4f914d705fd70c135dba6d80b1791d254b08d6d4136301941f88330dd09";
        tgz = true;
      },
    )
    ∷ (
      codes "darwin/amd64",
      record {
        name = codes "cloudflared-darwin-amd64.tgz";
        sha256 = codes "70d1c8684fa6d14b5843787ec8d1ea8e18b23650e424f4ea43d849a506487c3b";
        tgz = true;
      },
    )
    ∷ (
      codes "linux/amd64",
      record {
        name = codes "cloudflared-linux-amd64";
        sha256 = codes "9d71c677db00134c1bd4144b7783486b654ad281b1ea62b4972098d19f770f17";
        tgz = false;
      },
    )
    ∷ (
      codes "linux/arm64",
      record {
        name = codes "cloudflared-linux-arm64";
        sha256 = codes "65259e652a7bea08bf5df603233ab22b8bf3116af8df9f9206209af6a1b955c0";
        tgz = false;
      },
    )
    ∷ (
      codes "windows/amd64",
      record {
        name = codes "cloudflared-windows-amd64.exe";
        sha256 = codes "8635da433b6df8194746e88ed9d2589566c20e38bfc2a80e431a348b7c765841";
        tgz = false;
      },
    )
    ∷ []

pub data InstallState : Type 0 where
  idle downloading verifying done failed : InstallState

pub record Installer : Type 0 where
  pub state : InstallState
  pub error : Option Error
  pub received : ℕ
  pub total : ℕ
  pub asset_tag : Text

-- What is at ManagedPath: the bytes, and whether they can be run.
pub record Binary : Type 0 where
  pub content : List ℕ
  pub executable : Bool

pub record Response : Type 0 where
  pub is_ok : Bool
  pub length : ℕ
  pub body : Reader

-- An entry of a tar archive: a regular file or not, filepath.Base of its name, its content.
pub record Entry : Type 0 where
  pub regular : Bool
  pub base : Text
  pub content : Reader

-- The answers, in the order in which they are needed; `path` is "" without a cache directory, and
-- `room` is what the disk still takes of the download. An archive gives its entries, and the error
-- of Next after them, if it is not io.EOF.
pub record Answers : Type 0 where
  pub path : Text
  pub mkdir : Result (Unit {0})
  pub request : Result (Unit {0})
  pub response : Result Response
  pub create_temp : Result (Unit {0})
  pub room : Option ℕ
  pub close_temp : Result (Unit {0})
  pub archive : List ℕ → Result (List Entry × Option Error)
  pub create_out : Result (Unit {0})
  pub close_out : Result (Unit {0})
  pub rename : Result (Unit {0})
  pub chmod : Result (Unit {0})

-- Up to the response, with the asset.
unfoldable pub check_asset : Option Asset → Result Asset
check_asset none = err (message "no pinned cloudflared build")
check_asset (some a) = ok a

unfoldable pub check_path : Text → Result (Unit {0})
check_path [] = err (message "cannot determine a cache directory")
check_path (c ∷ cs) = ok tt

unfoldable pub check_status : Response → Result Response
check_status r = if r.is_ok then ok r else err (message "downloading cloudflared: HTTP status")

unfoldable pub prepare : Text → Answers → Result (Asset × Response)
unfolding find_asset assets check_asset check_path check_status
prepare platform a = do
  asset ← check_asset (find_asset platform assets)
  u ← check_path a.path
  v ← context "creating the directory" a.mkdir
  w ← a.request
  r ← context "downloading cloudflared" a.response
  r' ← check_status r
  ok (asset, r')

pub record Download : Type 0 where
  pub content : List ℕ
  pub received : ℕ
  pub result : Result (Unit {0})

abbrev pub prepend : List ℕ → Download → Download
prepend c d = record d { content = c ++ d.content }

-- io.Copy into the file, the hash and the counter, in this order, chunk by chunk.
unfoldable pub download : Option ℕ → ℕ → List (List ℕ) → Option Error → Download
download room n [] none = record { content = []; received = n; result = ok tt }
download room n [] (some e) = record { content = []; received = n; result = err e }
download none n (c ∷ cs) fault = prepend c (download none (add64 n (length c)) cs fault)
download (some k) n (c ∷ cs) fault =
    let rest = download (some (k - length c)) (add64 n (length c)) cs fault in
    if leb (length c) k
    then prepend c rest
    else record { content = []; received = n; result = err (message "short write") }

-- The first regular entry called cloudflared.
unfoldable pub find_entry : List Entry × Option Error → Result Entry
find_entry ([], none) = err (message "archive did not contain a cloudflared binary")
find_entry ([], some e) = err (wrapped "reading archive" e)
find_entry (x ∷ xs, e) =
    let rest = find_entry (xs, e) in
    if x.regular && eq_text x.base (codes "cloudflared") then ok x else rest

-- 512<<20
unfoldable pub max_binary : ℕ
max_binary = 512 * 1_048_576

-- io.CopyN that is content with io.EOF.
unfoldable pub bounded_copy : List ℕ × Option Error → Result (List ℕ)
bounded_copy (got, none) = ok got
bounded_copy (got, some eof) = ok got
bounded_copy (got, some e) = err (wrapped "extracting cloudflared" e)

-- extractTgzBinary: what it renames into place.
unfoldable pub extract : Answers → List ℕ → Result (List ℕ)
unfolding find_entry bounded_copy
extract a got = do
  archive ← context "reading archive" (a.archive got)
  entry ← find_entry archive
  u ← a.create_out
  content ← bounded_copy (copy_n entry.content max_binary)
  v ← a.close_out
  w ← a.rename
  ok content

-- What comes to ManagedPath, without the right to execute.
unfoldable pub place : Answers → Asset → List ℕ → Result (List ℕ)
unfolding extract
place a asset got =
    if asset.tgz then extract a got else (do u ← context "installing" a.rename; ok got)

pub record Outcome : Type 0 where
  pub installer : Installer
  pub binary : Option Binary
  pub result : Result (Unit {0})

-- After the rename: os.Chmod.
unfoldable pub make_executable : Answers → Installer → Option Binary → Result (List ℕ) → Outcome
make_executable a i old (err e) = record { installer = i; binary = old; result = err e }
make_executable a i old (ok content) = record {
  installer = i;
  binary =
      some
        (record { content = content; executable = elim a.chmod [ ok u ↦ true | err e ↦ false ] });
  result = context "making it executable" a.chmod;
}

abbrev pub with_result : Outcome → Outcome
with_result o = record o {
  installer = elim o.result [
    | ok u ↦ record (o.installer) { state = done; error = none }
    | err e ↦ record (o.installer) { state = failed; error = some e }
  ];
}

unfoldable pub is_busy : InstallState → Bool
is_busy downloading = true
is_busy verifying = true
is_busy _ = false

module _ (sha256_hex : List ℕ → Text) where
  -- The comparison of the checksum, and only then the file.
  unfoldable pub verify : Answers → Asset → Installer → Option Binary → List ℕ → Outcome
  unfolding place make_executable
  verify a asset i old got =
      let i' : Installer = record i { state = verifying; error = none } in
      if eq_text (sha256_hex got) asset.sha256
      then make_executable a i' old (place a asset got)
      else record {
        installer = i';
        binary = old;
        result = err (message "checksum mismatch (refusing to install)");
      }

  -- After the copy: its error, the error of Close, or the check.
  unfoldable pub after_download : Answers → Asset → Installer → Option Binary → Download → Outcome
  unfolding verify
  after_download a asset i old d =
      let i' : Installer = record i { received = d.received } in
      elim (context "downloading cloudflared" d.result >>= λ u. a.close_temp) [
        | err e ↦ record { installer = i'; binary = old; result = err e }
        | ok u ↦ verify a asset i' old d.content
      ]

  unfoldable pub fetch : Answers → Installer → Option Binary → Result (Asset × Response) → Outcome
  unfolding after_download download
  fetch a i old (err e) = record { installer = i; binary = old; result = err e }
  fetch a i old (ok (asset, r)) =
      let i' : Installer = record i { total = r.length; asset_tag = asset.name } in
      elim a.create_temp [
        | err e ↦ record { installer = i'; binary = old; result = err e }
        | ok u ↦
            after_download a asset i' old (download a.room i.received r.body.chunks r.body.fault)
      ]

  -- Installer.run
  unfoldable pub run : Text → Answers → Installer → Option Binary → Outcome
  unfolding fetch prepare
  run platform a i old = fetch a i old (prepare platform a)

  -- Install, to the end of its goroutine; nothing if one is running.
  unfoldable pub install : Text → Answers → Installer → Option Binary → Option Outcome
  unfolding run is_busy
  install platform a i old =
      if is_busy i.state
      then none
      else some (
          with_result (
            run platform a (record i { state = downloading; error = none; received = 0; total = 0 })
              old))
