-- ===== src/Demo.antt =====
-- transfer/demo/demo.go: the synthetic destination of --demo. The clock is left out; what select
-- finds at each tick is an argument, and so is the product of the rate with the length of a tick,
-- which is computed in float64.
pub mod Finish
pub mod Source
use timberlake.Base.{
  ℕ, zero, suc, ◌+◌, ◌-◌, ◌%◌, ◌^◌, Bool, true, false, ◌&&◌, not, List, [], ◌∷◌, Option, none, some,
  ltb, ◌==◌, if◌then◌else◌,
}
use timberlake.Base.Words.{add64, div64, lt64}
use timberlake.Io.{Text, Error, cancelled, message, Result, ok, err, Item}
use timberlake.Sizes.{put_size, known_size}

-- The fields of Config that the destination reads, as bit patterns.
pub record Config : Type 0 where
  pub fail_every : ℕ
  -- int64(float64(BytesPerSec) * tick.Seconds())
  pub scaled : ℕ

pub record Dest : Type 0 where
  pub have : List (Text × ℕ)
  pub nth : ℕ

abbrev pub min64 : ℕ → ℕ → ℕ
min64 a b = if lt64 a b then a else b

-- The first items, as many as AlreadyThere says, computed in float64.
unfoldable pub already_there : ℕ → List Item → List (Text × ℕ) → List (Text × ℕ)
already_there zero items have = have
already_there (suc n) [] have = have
already_there (suc n) (i ∷ items) have =
    already_there n items (put_size i.relative_path i.size have)

unfoldable pub new_dest : ℕ → List Item → Dest
unfolding already_there
new_dest up_to items = record { have = already_there up_to items []; nth = 0 }

unfoldable pub stat : Dest → Item → Bool × ℕ
stat d item = known_size item.relative_path d.have

-- n % every == 0, for a positive `every`: a remainder has the sign of n.
unfoldable pub is_multiple : ℕ → ℕ → Bool
is_multiple n every = (if ltb n (2 ^ 63) then n % every else (2 ^ 64 - n) % every) == 0

unfoldable pub should_fail : Config → ℕ → Bool
unfolding is_multiple
should_fail cfg nth = lt64 0 cfg.fail_every && is_multiple nth cfg.fail_every

unfoldable pub per_tick : Config → ℕ
per_tick cfg = if lt64 0 cfg.scaled then cfg.scaled else 2 ^ 20

-- The reports, each of committed, on the wire and buffered bytes, and the result.
pub record Transfer : Type 0 where
  pub reports : List (ℕ × ℕ × ℕ)
  pub result : Result (Unit {0})

unfoldable pub report : ℕ → ℕ → ℕ → ℕ × ℕ × ℕ
report tick size committed =
    let wire = min64 size (add64 committed tick) in
    (committed, wire, min64 size (add64 wire (2 ^ 24)))

abbrev pub report_first : ℕ × ℕ × ℕ → Option Transfer → Option Transfer
report_first r none = none
report_first r (some t) = some (record t { reports = r ∷ t.reports })

-- The loop of Put on fuel, with what select finds at the i-th tick; `none` without fuel.
unfoldable pub put_loop : ℕ → (ℕ → Bool) → Bool → ℕ → ℕ → ℕ → ℕ → Option Transfer
unfolding report
put_loop zero is_done fails tick size i committed = none
put_loop (suc fuel) is_done fails tick size i committed =
    let next = min64 size (add64 committed tick) in
    let rest = put_loop fuel is_done fails tick size (suc i) next in
    if not (lt64 committed size)
    then some (record { reports = (size, size, size) ∷ []; result = ok tt })
    else if is_done i
    then some (record { reports = []; result = err cancelled })
    else if fails && lt64 (div64 size 2) next
    then some (record { reports = []; result = err (message "simulated upload failure") })
    else report_first (report tick size next) rest

-- d.have[path] = size, if the loop ended well.
unfoldable pub finish : Dest → Item → ℕ → Transfer → Dest
finish d item size t = elim t.result [
  | ok u ↦ record d { have = put_size item.relative_path size d.have }
  | err e ↦ d
]

unfoldable pub finish_loop : Dest → Item → ℕ → Option Transfer → Option (Dest × Transfer)
unfolding finish
finish_loop d item size none = none
finish_loop d item size (some t) = some (finish d item size t, t)

-- Put, its first report from before the loop.
unfoldable pub put : ℕ → Config → (ℕ → Bool) → Dest → Item → ℕ → Option (Dest × Transfer)
unfolding finish_loop put_loop should_fail per_tick
put fuel cfg is_done d item size =
    let d' : Dest = record d { nth = add64 d.nth 1 } in
    finish_loop d' item size (
      report_first (0, 0, min64 size (2 ^ 24))
        (put_loop fuel is_done (should_fail cfg d'.nth) (per_tick cfg) size 0 0))
