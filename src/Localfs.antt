-- ===== src/Localfs.antt =====
-- transfer/localfs/localfs.go: the local filesystem as a destination. The file at the destination
-- is its bytes, if it exists; what the operating system answers is in `Env`.
pub mod Content
pub mod Listing
use timberlake.Base.{
  ℕ, zero, suc, Bool, true, false, ◌&&◌, List, [], ◌∷◌, ◌++◌, Option, none, some, ltb, length,
  if◌then◌else◌,
}
use timberlake.Base.Words.{lt64}
use timberlake.Io.{Text, Error, wrapped, OpenFunc, Result, ok, err, ◌>>=◌, context, Reader}
use timberlake.Copy.{Copied, copy_loop, same_prefix, says_yes}

-- The answers of one run of Put: os.MkdirAll, os.Stat, os.Open with its reads, os.OpenFile, and
-- the bytes that the output takes before a write fails.
pub record Env : Type 0 where
  pub mkdir : Result (Unit {0})
  pub stat : Result (Unit {0})
  pub open_file : List ℕ → Result Reader
  pub open_out : Result (Unit {0})
  pub room : Option ℕ

pub record Outcome : Type 0 where
  pub file : Option (List ℕ)
  pub reports : List ℕ
  pub result : Result (Unit {0})

-- O_APPEND.
abbrev pub append_at : List ℕ → ℕ → List ℕ → List ℕ
append_at file n c = file ++ c

module _ (sha256 : List ℕ → Text) where
  unfoldable pub partial_matches : Env → List ℕ → OpenFunc → ℕ → Result Bool
  partial_matches env file open_at n = same_prefix sha256 (env.open_file file) (open_at 0) n

  -- The offset to resume from, with the answer of os.Stat; 0 to start anew.
  unfoldable pub resume_from : Env → Result (Unit {0}) → Option (List ℕ) → OpenFunc → ℕ → ℕ
  resume_from env (err e) file open_at size = 0
  resume_from env (ok u) none open_at size = 0
  resume_from env (ok u) (some file) open_at size =
      if lt64 0 (length file)
        && lt64 (length file) size
        && says_yes (partial_matches env file open_at (length file))
      then length file
      else 0

  abbrev pub content_of : Option (List ℕ) → List ℕ
  content_of none = []
  content_of (some f) = f

  -- The file as os.OpenFile leaves it: O_CREATE, and O_APPEND or O_TRUNC.
  abbrev pub opened : ℕ → Option (List ℕ) → List ℕ
  opened start file = if lt64 0 start then content_of file else []

  -- The copy, and the last report: 100 % of the item's size.
  unfoldable pub finish_copy : ℕ → Copied → Outcome
  finish_copy size c = record {
    file = some c.file;
    reports = elim c.result [ ok u ↦ c.reports ++ size ∷ [] | err e ↦ c.reports ];
    result = context "copy" c.result;
  }

  unfoldable pub copy_from : Env → ℕ → ℕ → List ℕ → Result Reader → Outcome
  copy_from env size start file (err e) = record {
    file = some file;
    reports = [];
    result = err (wrapped "open source" e);
  }
  copy_from env size start file (ok src) =
      finish_copy size (copy_loop append_at env.room start file src.chunks src.fault)

  -- After the directory is there: open the output, then the source, at the offset.
  unfoldable pub write_out : Env → Result (Unit {0}) → Option (List ℕ) → OpenFunc → ℕ → ℕ → Outcome
  write_out env (err e) file open_at size start = record {
    file = file;
    reports = [];
    result = err (wrapped "open dest" e);
  }
  write_out env (ok u) file open_at size start =
      copy_from env size start (opened start file) (open_at start)

  unfoldable pub put_made : Env → Result (Unit {0}) → Option (List ℕ) → OpenFunc → ℕ → Outcome
  put_made env (err e) file open_at size = record {
    file = file;
    reports = [];
    result = err (wrapped "mkdir" e);
  }
  put_made env (ok u) file open_at size =
      write_out env env.open_out file open_at size (resume_from env env.stat file open_at size)

  unfoldable pub put : Env → Option (List ℕ) → OpenFunc → ℕ → Outcome
  put env file open_at size = put_made env env.mkdir file open_at size
