-- ===== src/Ui/ErrorLog/Lines.antt =====
-- The bytes of the error log, read line by line (Ui/ErrorLog).
use timberlake.Base.{
  ℕ, suc, ◌≡◌, refl, ap, ◌∙◌, ◌⊎◌, inl, inr, false, List, [], ◌∷◌, ◌++◌, append_assoc, Bool-cases,
  flatten, none, some, arith, length, take, drop, ◌==◌,
}
use timberlake.Base.Slices.{take_all}
use timberlake.Io.{Text, codes, Result, ok, err, Error}
use timberlake.Strings.{em_dash, split, cons_first}
use timberlake.Strings.Laws.{has_byte}
use timberlake.Config.{AppConfig}
use timberlake.Ui.Model.{FileError}
use timberlake.Ui.ErrorLog.{
  LogSystem, Written, log_name, destination_line, newline, text_of, error_calls, log_calls,
  write_calls, write_created, write_errors,
}

-- The errors that a reader of the file finds: below six lines, a path, a message behind four spaces
-- and an empty line for each.
abbrev pub read_entries : List Text → List FileError
read_entries (path ∷ text ∷ gap ∷ rest) =
    record { relative_path = path; message = drop 4 text } ∷ read_entries rest
read_entries _ = []

abbrev pub read_back : Text → List FileError
read_back file = read_entries (drop 6 (split newline file))

abbrev pub OneLine : Text → Type 0
OneLine t = has_byte newline t ≡ false

abbrev AllOneLine : List Text → Type 0
AllOneLine [] = Unit {0}
AllOneLine (t ∷ ts) = OneLine t × AllOneLine ts

abbrev pub OneLineErrors : List FileError → Type 0
OneLineErrors [] = Unit {0}
OneLineErrors (e ∷ es) = OneLine e.relative_path × OneLine e.message × OneLineErrors es

-- What the head of the log takes from elsewhere.
abbrev pub OneLineHead : LogSystem → AppConfig → Type 0
OneLineHead sys cfg =
    OneLine sys.time_stamp
    × OneLine cfg.source_dir
    × OneLine cfg.bucket
    × OneLine cfg.prefix
    × ((n : ℕ) → OneLine (sys.decimal n))

-- Every write takes all of its bytes.
abbrev pub TakesAll : LogSystem → Type 0
TakesAll sys = (k n : ℕ) → sys.write k n ≡ n

OneLine-append : (a b : Text) → OneLine a → OneLine b → OneLine (a ++ b)
unfolding has_byte
OneLine-append [] b h k = k
OneLine-append (x ∷ a) b h k = ground (arith, OneLine-append a b)

split-line :
    (line rest : Text)
    → OneLine line
    → split newline (line ++ newline ∷ rest) ≡ line ∷ split newline rest
unfolding split has_byte
split-line [] rest h = refl
split-line (x ∷ line) rest h = elim (Bool-cases (x == newline)) [
  | inl e ↦ cc (rw e at h)
  | inr e ↦ rw e (ap (cons_first x) (split-line line rest (rw e at h)))
]

split-text_of :
    (lines : List Text) → AllOneLine lines → split newline (text_of lines) ≡ lines ++ [] ∷ []
unfolding text_of split
split-text_of [] h = refl
split-text_of (line ∷ lines) h =
    split-line line (text_of lines) h.0 ∙ ap (λ t. line ∷ t) (split-text_of lines h.1)

text_of-append : (a b : List Text) → text_of a ++ text_of b ≡ text_of (a ++ b)
unfolding text_of
text_of-append [] b = refl
text_of-append (line ∷ a) b =
    append_assoc line (newline ∷ text_of a) (text_of b)
    ∙ ap (λ t. line ++ newline ∷ t) (text_of-append a b)

write_calls-all :
    (write : ℕ → ℕ → ℕ) (k : ℕ) (cs : List (List Text))
    → ((j n : ℕ) → write j n ≡ n)
    → write_calls write k cs ≡ text_of (flatten cs)
unfolding write_calls text_of flatten
write_calls-all write k [] all = refl
write_calls-all write k (c ∷ cs) all =
    ap (λ n. take n (text_of c) ++ write_calls write (suc k) cs) (all k (length (text_of c)))
    ∙ ap (λ t. t ++ write_calls write (suc k) cs)
        (take_all (length (text_of c)) (text_of c) (omega arith))
    ∙ ap (λ t. text_of c ++ t) (write_calls-all write (suc k) cs all)
    ∙ text_of-append c (flatten cs)

error_calls-AllOneLine :
    (es : List FileError) → OneLineErrors es → AllOneLine (flatten (error_calls es))
unfolding error_calls flatten
error_calls-AllOneLine [] h = tt
error_calls-AllOneLine (e ∷ es) (path, text, rest) = (
  path,
  (
    OneLine-append (codes "    ") e.message (unfold has_byte in refl) text,
    (unfold has_byte in refl, error_calls-AllOneLine es rest),
  ),
)

log_calls-AllOneLine :
    (sys : LogSystem) (cfg : AppConfig) (es : List FileError)
    → OneLineHead sys cfg
    → OneLineErrors es
    → AllOneLine (flatten (log_calls sys cfg es))
unfolding log_calls flatten destination_line
log_calls-AllOneLine sys cfg es (stamp, source, bucket, prefix, decimal) h = (
  OneLine-append (codes "Timberlake error log ") _ (unfold has_byte in refl) (
      OneLine-append em_dash _ (unfold has_byte in refl)
        (OneLine-append (codes " ") sys.time_stamp (unfold has_byte in refl) stamp)),
  (
    OneLine-append (codes "Source:      ") cfg.source_dir (unfold has_byte in refl) source,
    (
      OneLine-append (codes "Destination: s3://") _ (unfold has_byte in refl) (
          OneLine-append cfg.bucket _ bucket
            (OneLine-append (codes "/") cfg.prefix (unfold has_byte in refl) prefix)),
      (
        unfold has_byte in refl,
        (
          OneLine-append (sys.decimal (length es)) (codes " file(s) failed to upload:")
              (decimal (length es)) (unfold has_byte in refl),
          (unfold has_byte in refl, error_calls-AllOneLine es h),
        ),
      ),
    ),
  ),
)

read_entries-error_calls :
    (es : List FileError) → read_entries (flatten (error_calls es) ++ [] ∷ []) ≡ es
unfolding error_calls flatten
read_entries-error_calls [] = refl
read_entries-error_calls (e ∷ es) = ap (λ t. e ∷ t) (read_entries-error_calls es)

log_calls-read :
    (sys : LogSystem) (cfg : AppConfig) (es : List FileError)
    → read_entries (drop 6 (flatten (log_calls sys cfg es) ++ [] ∷ [])) ≡ es
unfolding log_calls flatten
log_calls-read sys cfg es = read_entries-error_calls es

-- What is there after WriteErrorLog: nothing for no errors; nothing and the error if the file cannot
-- be created; else a file from whose bytes all the errors are read back, in their order.
abbrev pub Logged : LogSystem → List FileError → Written → Type 0
Logged sys errors w =
    ((errors ≡ []) × (w.file ≡ none) × (w.path ≡ ok []))
    ⊎ (((e : Error) × (sys.create (log_name sys) ≡ err e) × (w.file ≡ none) × (w.path ≡ err e))
        ⊎ ((file : Text) × (w.file ≡ some file) × (read_back file ≡ errors)))

pub write_errors-Logged :
    (sys : LogSystem) (cfg : AppConfig) (errors : List FileError)
    → TakesAll sys
    → OneLineHead sys cfg
    → OneLineErrors errors
    → Logged sys errors (write_errors sys cfg errors)
unfolding write_errors
write_errors-Logged sys cfg [] all head lines = inl (refl, refl, refl)
write_errors-Logged sys cfg (e ∷ es) all head lines = by_answer (sys.create (log_name sys)) refl
  where
    by_answer :
        (r : Result (Unit {0}))
        → sys.create (log_name sys) ≡ r
        → Logged sys (e ∷ es) (write_created sys cfg (e ∷ es) r)
    by_answer (err x) h = unfold write_created in inr (inl (x, h, refl, refl))
    by_answer (ok u) h =
        unfold write_created in
        inr (
          inr (
            write_calls sys.write 0 (log_calls sys cfg (e ∷ es)),
            refl,
            ap read_back (write_calls-all sys.write 0 (log_calls sys cfg (e ∷ es)) all)
                ∙ ap (λ t. read_entries (drop 6 t))
                    (split-text_of _ (log_calls-AllOneLine sys cfg (e ∷ es) head lines))
                ∙ log_calls-read sys cfg (e ∷ es),
          ))
