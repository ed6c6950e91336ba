-- ===== src/S3/Client.antt =====
-- The client of transfer/s3backend/s3.go: `S3`, its part sizes and part counts, and the counters
-- of an upload (internal.go). An int32 or int64 is its bit pattern.
use timberlake.Base.{ℕ, if◌then◌else◌}
use timberlake.Base.Words.{to_int32, of_int32, add64, sub64, mul64, div64, lt64, sub32}
use timberlake.Io.{Text}

-- The service's connection is `S3.Service`; these are the other fields.
pub record Client : Type 0 where
  pub bucket : Text
  pub prefix : Text
  pub part_size : ℕ
  pub concurrency : ℕ

pub record Counters : Type 0 where
  pub wire : ℕ
  pub committed : ℕ
  pub buffered : ℕ

abbrev pub no_counters : Counters
no_counters = record { wire = 0; committed = 0; buffered = 0 }

-- int64(n-1) * s.partSize
unfoldable pub part_start : Client → ℕ → ℕ
part_start s n = mul64 (of_int32 (sub32 n 1)) s.part_size

-- The length of part n, counted from 1.
unfoldable pub part_bytes : Client → ℕ → ℕ → ℕ
unfolding part_start
part_bytes s n size =
    let start = part_start s n in
    if lt64 size (add64 start s.part_size) then sub64 size start else s.part_size

-- int32((size + s.partSize - 1) / s.partSize)
unfoldable pub total_parts : Client → ℕ → ℕ
total_parts s size = to_int32 (div64 (sub64 (add64 size s.part_size) 1) s.part_size)
