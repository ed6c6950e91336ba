-- ===== src/Ui/ErrorLog.antt =====
-- WriteErrorLog of ui/errors.go. The file is its bytes; each call of Fprintf is one write, of which the
-- operating system may take less than all, and whose error is dropped. The stamps of the time, the
-- decimal digits and what the operating system answers are arguments.
pub mod Lines
pub mod Complete
use timberlake.Base.{ℕ, suc, List, [], ◌∷◌, ◌++◌, Option, none, some, length, take}
use timberlake.Io.{Text, codes, Result, ok, err, Error}
use timberlake.Strings.{em_dash}
use timberlake.Config.{AppConfig}
use timberlake.Ui.Model.{FileError, Model}

-- os.Create of a name, filepath.Abs, and how many of the bytes of the k-th write are taken.
pub record LogSystem : Type 0 where
  pub create : Text → Result (Unit {0})
  pub abs : Text → Result Text
  pub write : ℕ → ℕ → ℕ
  pub name_stamp : Text
  pub time_stamp : Text
  pub decimal : ℕ → Text

-- What is there afterwards: the path that is returned, "" for none, and the bytes of the file.
pub record Written : Type 0 where
  pub path : Result Text
  pub file : Option Text

unfoldable pub log_name : LogSystem → Text
log_name sys = codes "timberlake-errors-" ++ (sys.name_stamp ++ codes ".log")

unfoldable pub destination_line : AppConfig → Text
destination_line cfg = codes "Destination: s3://" ++ (cfg.bucket ++ (codes "/" ++ cfg.prefix))

abbrev pub newline : ℕ
newline = 10

-- Lines, each with its newline.
unfoldable pub text_of : List Text → Text
text_of [] = []
text_of (line ∷ lines) = line ++ newline ∷ text_of lines

-- The calls of Fprintf, each with the lines that it formats.
unfoldable pub error_calls : List FileError → List (List Text)
error_calls [] = []
error_calls (e ∷ es) = (e.relative_path ∷ (codes "    " ++ e.message) ∷ [] ∷ []) ∷ error_calls es

unfoldable pub log_calls : LogSystem → AppConfig → List FileError → List (List Text)
unfolding destination_line error_calls
log_calls sys cfg errors =
    ((codes "Timberlake error log " ++ (em_dash ++ (codes " " ++ sys.time_stamp))) ∷ [])
    ∷ ((codes "Source:      " ++ cfg.source_dir) ∷ [])
    ∷ (destination_line cfg ∷ [])
    ∷ ([] ∷ (sys.decimal (length errors) ++ codes " file(s) failed to upload:") ∷ [] ∷ [])
    ∷ error_calls errors

-- The bytes of the file after the calls, from the k-th on.
unfoldable pub write_calls : (ℕ → ℕ → ℕ) → ℕ → List (List Text) → Text
unfolding text_of
write_calls write k [] = []
write_calls write k (c ∷ cs) =
    take (write k (length (text_of c))) (text_of c) ++ write_calls write (suc k) cs

unfoldable pub or_name : Text → Result Text → Text
or_name name (ok path) = path
or_name name (err e) = name

unfoldable pub write_created : LogSystem → AppConfig → List FileError → Result (Unit {0}) → Written
unfolding log_name log_calls write_calls or_name
write_created sys cfg errors (err e) = record { path = err e; file = none }
write_created sys cfg errors (ok u) = record {
  path = ok (or_name (log_name sys) (sys.abs (log_name sys)));
  file = some (write_calls sys.write 0 (log_calls sys cfg errors));
}

unfoldable pub write_errors : LogSystem → AppConfig → List FileError → Written
unfolding write_created log_name
write_errors sys cfg [] = record { path = ok []; file = none }
write_errors sys cfg (e ∷ es) = write_created sys cfg (e ∷ es) (sys.create (log_name sys))

-- WriteErrorLog
unfoldable pub write_error_log : {F : Type 0} → LogSystem → AppConfig → Model F → Written
unfolding write_errors
write_error_log sys cfg m = write_errors sys cfg m.errors
