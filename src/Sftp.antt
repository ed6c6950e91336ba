-- ===== src/Sftp.antt =====
-- transfer/sftpbackend/sftp.go: an SFTP server as a destination. The file at the destination is its
-- bytes, if it exists; what the server answers is in `Env`.
pub mod Content
pub mod Listing
use timberlake.Base.{
  ℕ, zero, suc, ◌-◌, ◌+◌, Bool, true, false, ◌&&◌, not, List, [], ◌∷◌, ◌++◌, Option, none, some,
  length, take, drop, replicate, if◌then◌else◌,
}
use timberlake.Base.Words.{lt64}
use timberlake.Io.{
  Text, codes, eq_text, Error, wrapped, OpenFunc, Result, ok, err, ◌>>=◌, context, Reader,
}
use timberlake.Copy.{Copied, copy_loop, same_prefix, says_yes}

-- The directory of the remote path, and the answers of one run of Put: MkdirAll, Stat, Open with its
-- reads, OpenFile, Seek, and the bytes that the output takes before a write fails.
pub record Env : Type 0 where
  pub dir : Text
  pub mkdir : Result (Unit {0})
  pub stat : Result (Unit {0})
  pub open_file : List ℕ → Result Reader
  pub open_out : Result (Unit {0})
  pub seek : Result (Unit {0})
  pub room : Option ℕ

pub record Outcome : Type 0 where
  pub file : Option (List ℕ)
  pub reports : List ℕ
  pub result : Result (Unit {0})

-- A write at an offset: a gap before it reads as zeros, and what lies behind it stays.
unfoldable pub write_at : List ℕ → ℕ → List ℕ → List ℕ
write_at file n c =
    (take n file ++ replicate (n - length file) 0) ++ (c ++ drop (n + length c) file)

-- Neither "." nor "/".
unfoldable pub needs_mkdir : Text → Bool
needs_mkdir dir = not (eq_text dir (codes ".")) && not (eq_text dir (codes "/"))

module _ (sha256 : List ℕ → Text) where
  unfoldable pub partial_matches : Env → List ℕ → OpenFunc → ℕ → Result Bool
  partial_matches env file open_at n = same_prefix sha256 (env.open_file file) (open_at 0) n

  -- The offset to resume from, with the answer of Stat; 0 to start anew.
  unfoldable pub resume_from : Env → Result (Unit {0}) → Option (List ℕ) → OpenFunc → ℕ → ℕ
  resume_from env (err e) file open_at size = 0
  resume_from env (ok u) none open_at size = 0
  resume_from env (ok u) (some file) open_at size =
      if lt64 0 (length file)
        && lt64 (length file) size
        && says_yes (partial_matches env file open_at (length file))
      then length file
      else 0

  abbrev pub content_of : Option (List ℕ) → List ℕ
  content_of none = []
  content_of (some f) = f

  -- The file as OpenFile leaves it: O_CREATE, and O_TRUNC unless it resumes.
  abbrev pub opened : ℕ → Option (List ℕ) → List ℕ
  opened start file = if lt64 0 start then content_of file else []

  -- The copy, and the last report: 100 % of the item's size.
  unfoldable pub finish_copy : ℕ → Copied → Outcome
  finish_copy size c = record {
    file = some c.file;
    reports = elim c.result [ ok u ↦ c.reports ++ size ∷ [] | err e ↦ c.reports ];
    result = context "copy" c.result;
  }

  unfoldable pub copy_from : Env → ℕ → ℕ → List ℕ → Result Reader → Outcome
  copy_from env size start file (err e) = record {
    file = some file;
    reports = [];
    result = err (wrapped "open source" e);
  }
  copy_from env size start file (ok src) =
      finish_copy size (copy_loop write_at env.room start file src.chunks src.fault)

  -- After a seek to the offset, if there is one.
  unfoldable pub sought : Env → Result (Unit {0}) → List ℕ → OpenFunc → ℕ → ℕ → Outcome
  sought env (err e) file open_at size start = record {
    file = some file;
    reports = [];
    result = err (wrapped "seek remote" e);
  }
  sought env (ok u) file open_at size start = copy_from env size start file (open_at start)

  -- After the directory is there: open the output at the offset, then the source.
  unfoldable pub write_out : Env → Result (Unit {0}) → Option (List ℕ) → OpenFunc → ℕ → ℕ → Outcome
  write_out env (err e) file open_at size start = record {
    file = file;
    reports = [];
    result = err (wrapped "open remote" e);
  }
  write_out env (ok u) file open_at size start =
      sought env (if lt64 0 start then env.seek else ok tt) (opened start file) open_at size start

  unfoldable pub put_made : Env → Result (Unit {0}) → Option (List ℕ) → OpenFunc → ℕ → Outcome
  put_made env (err e) file open_at size = record {
    file = file;
    reports = [];
    result = err (wrapped "mkdir" e);
  }
  put_made env (ok u) file open_at size =
      write_out env env.open_out file open_at size (resume_from env env.stat file open_at size)

  unfoldable pub put : Env → Option (List ℕ) → OpenFunc → ℕ → Outcome
  put env file open_at size =
      put_made env (if needs_mkdir env.dir then env.mkdir else ok tt) file open_at size
