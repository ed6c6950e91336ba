-- ===== src/Program/Ending.antt =====
-- The settings of a run and its exit status (Program).
use timberlake.Base.{
  ◌≡◌, refl, sym, ap, ◌∙◌, ◌⊎◌, inl, inr, Bool, true, false, List, [], ◌∷◌, Option, none, some,
  arith, Bool-cases,
}
use timberlake.Io.{Text, codes, Result, ok, err, context}
use timberlake.Io.Readers.{>>=-inv, context-ok, ok_inj}
use timberlake.Config.{AppConfig, or_else, parse_s3cfg}
use timberlake.Config.Explicit.{
  Stays, StaysSecure, Respects, Respects-refl, Respects-trans, others, or_else-Stays,
  or_else-StaysSecure, parse_s3cfg-Respects,
}
use timberlake.Program.{
  Flags, System, flag_or_env, initial_config, with_file, with_env, settings, Final, verdict, World,
  open_pair, run, exit_status,
}

with_env-Respects : (sys : System) (cfg : AppConfig) → Respects cfg (with_env sys cfg)
unfolding with_env
with_env-Respects sys cfg = (
  or_else-Stays cfg.access_key _,
  or_else-Stays cfg.secret_key _,
  or_else-StaysSecure cfg.endpoint_url _,
  refl,
)

with_file-Respects :
    (sys : System) (s3cfg : Text) (cfg : AppConfig) → Respects cfg (with_file sys s3cfg cfg)
unfolding with_file
with_file-Respects sys s3cfg cfg = elim (Bool-cases (sys.is_there s3cfg)) [
  | inl e ↦ rw e (parse_s3cfg-Respects sys.files s3cfg cfg)
  | inr e ↦ rw e (Respects-refl cfg)
]

-- A flag that is given stays, in the sense of `Same`; without it, the environment's value does.
abbrev pub Prefers : (Text → Text → Type 0) → Option Text → Text → Text → Type 0
Prefers Same flag env v =
    ((given : Text) × (flag ≡ some given) × Same given v) ⊎ ((flag ≡ none) × Same env v)

flag-Prefers :
    (Same : Text → Text → Type 0) (sys : System) (name : Text) (flag : Option Text) (v : Text)
    → Same (flag_or_env sys name flag) v
    → Prefers Same flag (sys.getenv name) v
unfolding flag_or_env
flag-Prefers Same sys name none v same = inr (refl, same)
flag-Prefers Same sys name (some given) v same = inl (given, refl, same)

-- Without a file of s3cmd; or what the file leaves of the settings stays, and the environment's
-- values are taken where it leaves none.
abbrev pub FileBeforeEnv : System → Text → AppConfig → AppConfig → Type 0
FileBeforeEnv sys s3cfg start cfg =
    (sys.is_there s3cfg ≡ false)
    ⊎ (let filed = (parse_s3cfg sys.files s3cfg start).0 in
        (cfg.access_key ≡ or_else filed.access_key (sys.getenv (codes "AWS_ACCESS_KEY_ID")))
        × (cfg.secret_key ≡ or_else filed.secret_key (sys.getenv (codes "AWS_SECRET_ACCESS_KEY")))
        × (cfg.endpoint_url ≡ or_else filed.endpoint_url (sys.getenv (codes "AWS_ENDPOINT_URL")))
        × (cfg.use_ssl ≡ filed.use_ssl))

with_env-FileBeforeEnv :
    (sys : System) (s3cfg : Text) (start : AppConfig)
    → FileBeforeEnv sys s3cfg start (with_env sys (with_file sys s3cfg start))
unfolding with_file with_env
with_env-FileBeforeEnv sys s3cfg start = elim (Bool-cases (sys.is_there s3cfg)) [
  | inl e ↦ inr (rw e refl, rw e refl, rw e refl, rw e refl)
  | inr e ↦ inl e
]

pub settings-Respects :
    (sys : System) (f : Flags) (args : List Text)
    → let cfg = settings sys f args in
      let start = initial_config sys f args in
      Prefers Stays f.access_key (sys.getenv (codes "AWS_ACCESS_KEY_ID")) cfg.access_key
      × Prefers Stays f.secret_key (sys.getenv (codes "AWS_SECRET_ACCESS_KEY")) cfg.secret_key
      × Prefers StaysSecure f.endpoint (sys.getenv (codes "AWS_ENDPOINT_URL")) cfg.endpoint_url
      × FileBeforeEnv sys f.s3cfg start cfg
      × (others cfg ≡ others start)
unfolding settings initial_config
settings-Respects sys f args =
    let cfg = initial_config sys f args in
    let cfg' = with_file sys f.s3cfg cfg in
    let (key, secret, url, rest) =
      Respects-trans cfg cfg' (with_env sys cfg') (with_file-Respects sys f.s3cfg cfg)
        (with_env-Respects sys cfg') in
    (
      flag-Prefers Stays sys _ f.access_key _ key,
      flag-Prefers Stays sys _ f.secret_key _ secret,
      flag-Prefers StaysSecure sys _ f.endpoint _ url,
      with_env-FileBeforeEnv sys f.s3cfg cfg,
      rest,
    )

-- The pair a run works on: that of the demo, or what opening the source and opening the destination
-- gave.
abbrev pub Opened : {B : Type 0} → World B → AppConfig → Bool → Text → B × B → Type 0
Opened w cfg demo_mode spec pair =
    ((demo_mode ≡ true) × (pair ≡ w.demo_pair spec))
    ⊎ ((demo_mode ≡ false)
        × (w.open_source cfg.source_dir cfg ≡ ok pair.0)
        × (w.open_dest cfg.destination cfg ≡ ok pair.1))

-- Source and destination were opened, or it is a demo; the interface ended with no error; and, if
-- only verifying, the final model has no errors.
abbrev pub EndsWell : {B : Type 0} → World B → AppConfig → Bool → Text → Type 0
EndsWell {B} w cfg demo_mode spec =
    (pair : B × B) × (final : Final) × Opened w cfg demo_mode spec pair
    × (w.run_ui cfg pair.0 pair.1 ≡ ok final)
    × ((cfg.verify_only ≡ false) ⊎ ((final ≡ none) ⊎ (final ≡ some [])))

verdict-ok :
    (only : Bool) (final : Final)
    → verdict only final ≡ ok tt
    → (only ≡ false) ⊎ ((final ≡ none) ⊎ (final ≡ some []))
unfolding verdict
verdict-ok false final h = inl refl
verdict-ok true none h = inr (inl refl)
verdict-ok true (some []) h = inr (inr refl)
verdict-ok true (some (e ∷ es)) h = ground arith

ok-verdict :
    (only : Bool) (final : Final)
    → (only ≡ false) ⊎ ((final ≡ none) ⊎ (final ≡ some []))
    → verdict only final ≡ ok tt
unfolding verdict
ok-verdict only none h = refl
ok-verdict only (some []) h = ground arith
ok-verdict false (some (e ∷ es)) h = refl
ok-verdict true (some (e ∷ es)) (inl h) = cc
ok-verdict true (some (e ∷ es)) (inr (inl h)) = cc
ok-verdict true (some (e ∷ es)) (inr (inr h)) = ground arith

module _ {B : Type 0} (w : World B) (cfg : AppConfig) (demo_mode : Bool) (spec : Text) where
  open_pair-Opened :
      (d : Bool) (pair : B × B) → open_pair w cfg d spec ≡ ok pair → Opened w cfg d spec pair
  unfolding open_pair
  open_pair-Opened true pair h = inl (refl, ok_inj pair (w.demo_pair spec) (sym h))
  open_pair-Opened false pair h =
      let (source, from, more) =
        >>=-inv (context "opening source" (w.open_source cfg.source_dir cfg)) _ h in
      let (dest, to, same) =
        >>=-inv (context "opening destination" (w.open_dest cfg.destination cfg)) _ more in
      let e = ok_inj (source, dest) pair same in
      inr (
        refl,
        context-ok "opening source" (w.open_source cfg.source_dir cfg) from ∙ ap (λ p. ok p.0) e,
        context-ok "opening destination" (w.open_dest cfg.destination cfg) to ∙ ap (λ p. ok p.1) e,
      )

  Opened-open_pair :
      (d : Bool) (pair : B × B) → Opened w cfg d spec pair → open_pair w cfg d spec ≡ ok pair
  unfolding open_pair
  Opened-open_pair true pair (inl (on, e)) = ap ok (sym e)
  Opened-open_pair true pair (inr (off, more, end)) = cc
  Opened-open_pair false pair (inl (on, e)) = cc
  Opened-open_pair false pair (inr (off, from, to)) = rw (from, to) refl

  run-EndsWell : run w cfg demo_mode spec ≡ ok tt → EndsWell w cfg demo_mode spec
  unfolding run
  run-EndsWell h =
      let (pair, opened, more) = >>=-inv (open_pair w cfg demo_mode spec) _ h in
      let (final, ended, said) = >>=-inv (context "UI error" (w.run_ui cfg pair.0 pair.1)) _ more in
      (
        pair,
        final,
        open_pair-Opened demo_mode pair opened,
        context-ok "UI error" (w.run_ui cfg pair.0 pair.1) ended,
        verdict-ok cfg.verify_only final said,
      )

  EndsWell-run : EndsWell w cfg demo_mode spec → run w cfg demo_mode spec ≡ ok tt
  unfolding run
  EndsWell-run (pair, final, opened, ended, said) =
      rw (Opened-open_pair demo_mode pair opened, ended) (ok-verdict cfg.verify_only final said)

  -- The exit status is 0 or 1, and it is 0 exactly if the run ends well: the source and the
  -- destination of the settings are opened without an error, or it is a demo; on these two the interface ends with no error; and a run that only verifies has no
  -- errors in its final model, if there is one.
  pub exit_status-EndsWell :
      let status = exit_status (run w cfg demo_mode spec) in
      ((status ≡ 0) × EndsWell w cfg demo_mode spec)
      ⊎ ((status ≡ 1) × ¬ EndsWell w cfg demo_mode spec)
  unfolding exit_status
  exit_status-EndsWell = by_result (run w cfg demo_mode spec) refl
    where
      by_result :
          (r : Result (Unit {0}))
          → run w cfg demo_mode spec ≡ r
          → ((exit_status r ≡ 0) × EndsWell w cfg demo_mode spec)
            ⊎ ((exit_status r ≡ 1) × ¬ EndsWell w cfg demo_mode spec)
      by_result (ok tt) e = inl (refl, run-EndsWell e)
      by_result (err x) e = inr (refl, λ well. cc (sym e ∙ EndsWell-run well))
