-- ===== src/Ui/Listing.antt =====
-- bulkStatCmd of ui/update.go: what the bulk listing of the destination becomes. Its reports of
-- progress are left out.
use timberlake.Base.{ℕ, List, Option, none, some, length}
use timberlake.Base.Int.{ℤ, pos}
use timberlake.Io.{Text, Result, ok, err}

-- maxBulkEntries
abbrev pub max_bulk_entries : ℤ
max_bulk_entries = pos 2_000_000

-- Known and Found of BulkStatCompleteMsg: nothing known after an error or a listing given up.
unfoldable pub bulk_stat : Result (Option (List (Text × ℕ))) → Option (List (Text × ℕ)) × ℕ
bulk_stat (err e) = (none, 0)
bulk_stat (ok none) = (none, 0)
bulk_stat (ok (some known)) = (some known, length known)
