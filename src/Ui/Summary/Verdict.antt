-- ===== src/Ui/Summary/Verdict.antt =====
-- The summary of a verification and the exit status agree (Ui/Summary, Program).
use timberlake.Base.{
  ℕ, ◌+◌, ◌<◌, ◌^◌, ◌≡◌, refl, ◌⊎◌, inl, inr, true, false, List, [], ◌∷◌, some, arith, length,
}
use timberlake.Base.Words.{lt64}
use timberlake.Io.{message, ok, err}
use timberlake.Config.{AppConfig}
use timberlake.Program.{verdict}
use timberlake.Ui.Model.{Floats, FileError, Model}
use timberlake.Ui.Update.Counts.{ended}
use timberlake.Ui.Pool.{Sent}
use timberlake.Ui.Pool.Done.{deliver_all}
use timberlake.Ui.ErrorLog.Complete.{Matches, deliver_all-Matches}
use timberlake.Ui.Summary.{green, red, colour, is_cancelled, ending}

-- Green and no error at the exit, or red and an error.
abbrev pub Agree : {F : Type 0} → AppConfig → Model F → Type 0
Agree cfg m =
    ((colour (ending cfg m) ≡ green) × (verdict cfg.verify_only (some m.errors) ≡ ok tt))
    ⊎ ((colour (ending cfg m) ≡ red)
        × (verdict cfg.verify_only (some m.errors)
            ≡ err (message "verification found discrepancies")))

ending-Agree :
    {F : Type 0} (cfg : AppConfig) (m : Model F) (errors : List FileError)
    → cfg.verify_only ≡ true
    → is_cancelled m.state ≡ false
    → m.failed_files ≡ length errors
    → length errors < 2 ^ 63
    → m.errors ≡ errors
    → Agree cfg m
unfolding ending colour verdict
ending-Agree cfg m [] only run count few e =
    let no_failure : lt64 0 m.failed_files ≡ false = ground arith in
    inl (rw (run, only, no_failure) refl, rw (only, e) refl)
ending-Agree cfg m (x ∷ errors) only run count few e =
    let failures : lt64 0 m.failed_files ≡ true = ground arith in
    inr (rw (run, only, failures) refl, rw (only, e) (ground arith))

module _ (fl : Floats) where
  open fl use {F}

  -- A verification that is not cancelled, after the messages of a session that starts with no failed
  -- file: the summary is green and the program ends without an error, or it is red and the program
  -- ends with the error of discrepancies. The messages are fewer than 2^62, the total is positive and
  -- fits an int64.
  pub ending-Agrees :
      (cfg : AppConfig) (times : ℕ → ℕ) (out : List Sent) (m : Model F)
      → cfg.verify_only ≡ true
      → ended fl m + length out < 2 ^ 62
      → m.total_files < 2 ^ 63
      → 0 < m.total_files
      → Matches fl m
      → is_cancelled (deliver_all fl times out m).state ≡ false
      → Agree cfg (deliver_all fl times out m)
  ending-Agrees cfg times out m only h t z v run =
      let m' = deliver_all fl times out m in
      let (count, le) = deliver_all-Matches fl times out m h t z v in
      ending-Agree cfg m' m'.errors only run count (omega (arith, count, le, h)) refl
