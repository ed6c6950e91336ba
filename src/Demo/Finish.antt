-- ===== src/Demo/Finish.antt =====
-- How Put of the demo ends, and what it reports (Demo).
use timberlake.Base.{
  ℕ, zero, suc, ◌-◌, ◌<◌, ◌≤◌, ◌^◌, ◌≡◌, refl, ◌⊎◌, inl, inr, Bool, true, ◌&&◌, List, [], ◌∷◌, some,
  arith, Bool-cases, if◌then◌else◌,
}
use timberlake.Base.Words.{add64, div64, lt64}
use timberlake.Io.{eq_text, Error, cancelled, message, Result, ok, err, Item}
use timberlake.Sizes.Laws.{known_size-put_size}
use timberlake.Demo.{
  Config, Dest, min64, stat, should_fail, per_tick, Transfer, report, put_loop, finish, finish_loop,
  put,
}

-- Committed bytes are on the wire, those on the wire are buffered, and no more than the file.
unfoldable pub Nested : ℕ → List (ℕ × ℕ × ℕ) → Type 0
Nested size [] = Unit
Nested size ((c, w, b) ∷ rs) = (c ≤ w) × ((w ≤ b) × ((b ≤ size) × Nested size rs))

min64-le : (a b : ℕ) → a < 2 ^ 63 → b < 2 ^ 63 → min64 a b ≤ a
min64-le a b h k = ground arith

report-Nested :
    (tick size c : ℕ) (rs : List (ℕ × ℕ × ℕ))
    → size < 2 ^ 62
    → tick < 2 ^ 62
    → c ≤ size
    → Nested size rs
    → Nested size (report tick size c ∷ rs)
unfolding Nested report
report-Nested tick size c rs h k le nested = (ground arith, (ground arith, (ground arith, nested)))

next-le :
    (tick size c : ℕ) → size < 2 ^ 62 → tick < 2 ^ 62 → c ≤ size → min64 size (add64 c tick) ≤ size
next-le tick size c h k le = ground arith

next-lt :
    (tick size c : ℕ)
    → size < 2 ^ 62
    → tick < 2 ^ 62
    → 0 < tick
    → lt64 c size ≡ true
    → c ≤ size
    → c < min64 size (add64 c tick)
next-lt tick size c h k p more le = ground arith

-- The loop ends, with fuel for one byte in each tick and one turn more.
put_loop-Nested :
    (fuel : ℕ) (is_done : ℕ → Bool) (fails : Bool) (tick size i committed : ℕ)
    → size < 2 ^ 62
    → tick < 2 ^ 62
    → 0 < tick
    → committed ≤ size
    → size - committed < fuel
    → (t : Transfer) × (put_loop fuel is_done fails tick size i committed ≡ some t)
      × Nested size t.reports
unfolding put_loop Nested
put_loop-Nested zero is_done fails tick size i committed h k p le enough = absurd (omega arith)
put_loop-Nested (suc fuel) is_done fails tick size i committed h k p le enough =
    let next = min64 size (add64 committed tick) in
    elim (Bool-cases (lt64 committed size)) [
      | inr full ↦ (
        record { reports = (size, size, size) ∷ []; result = ok tt },
        rw full refl,
        (omega arith, (omega arith, (omega arith, tt))),
      )
      | inl more ↦ elim (Bool-cases (is_done i)) [
        | inl done ↦ (record { reports = []; result = err cancelled }, rw (more, done) refl, tt)
        | inr going ↦ elim (Bool-cases (fails && lt64 (div64 size 2) next)) [
          | inl failing ↦ (
            record { reports = []; result = err (message "simulated upload failure") },
            rw (more, going, failing) refl,
            tt,
          )
          | inr working ↦
              let le' : next ≤ size = next-le tick size committed h k le in
              let less : committed < next = next-lt tick size committed h k p more le in
              let (t, ended, nested) =
                put_loop-Nested fuel is_done fails tick size (suc i) next h k p le' (omega arith) in
              (
                record t { reports = report tick size next ∷ t.reports },
                rw (more, going, working, ended) refl,
                report-Nested tick size next t.reports h k le' nested,
              )
        ]
      ]
    ]

per_tick-range : (cfg : Config) → cfg.scaled < 2 ^ 62 → (0 < per_tick cfg) × (per_tick cfg < 2 ^ 62)
unfolding per_tick
per_tick-range cfg h = (ground arith, ground arith)

-- What a transfer leaves: the size of its item if it ended well, and else nothing new.
abbrev pub Leaves : Dest → Dest → Item → Item → ℕ → Result (Unit {0}) → Type 0
Leaves d d' item other size result =
    ((result ≡ ok tt)
      × (stat d' other ≡ (
          if eq_text item.relative_path other.relative_path then (true, size) else stat d other)))
    ⊎ ((e : Error) × (result ≡ err e) × (d'.have ≡ d.have))

finish-Leaves :
    (d : Dest) (item other : Item) (size : ℕ) (t : Transfer)
    → Leaves d (finish d item size t) item other size t.result
unfolding finish stat
finish-Leaves d item other size t = by_result t.result refl
  where
    by_result :
        (r : Result (Unit {0}))
        → t.result ≡ r
        → Leaves d (finish d item size t) item other size t.result
    by_result (ok u) h =
        inl (h, rw h (known_size-put_size other.relative_path item.relative_path size d.have))
    by_result (err e) h = inr (e, h, rw h refl)

-- For a file and a rate below 2^62, with fuel for each byte and one turn more, and whatever select
-- finds: Put ends; each of its reports is nested, with no more bytes committed than on the wire, no
-- more of these than buffered, and no more of these than the file has; if it ends well, Stat answers
-- with the size for the path of the item and as before for any other, and else nothing is stored.
pub put-Leaves :
    (fuel : ℕ) (cfg : Config) (is_done : ℕ → Bool) (d : Dest) (item other : Item) (size : ℕ)
    → size < 2 ^ 62
    → cfg.scaled < 2 ^ 62
    → size < fuel
    → (d' : Dest) × (t : Transfer) × (put fuel cfg is_done d item size ≡ some (d', t))
      × Nested size t.reports
      × Leaves d d' item other size t.result
unfolding put finish_loop Nested
put-Leaves fuel cfg is_done d item other size h k enough =
    let counted : Dest = record d { nth = add64 d.nth 1 } in
    let (positive, small) = per_tick-range cfg k in
    let (t, ended, nested) =
      put_loop-Nested fuel is_done (should_fail cfg counted.nth) (per_tick cfg) size 0 0 h small
        positive (omega arith) (omega arith) in
    let t' : Transfer = record t { reports = (0, 0, min64 size (2 ^ 24)) ∷ t.reports } in
    (
      finish counted item size t',
      t',
      rw ended refl,
      (omega arith, (omega arith, (ground arith, nested))),
      unfold stat in finish-Leaves counted item other size t',
    )
