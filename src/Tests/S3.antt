-- ===== src/Tests/S3.antt =====
-- A resumed upload of five bytes in parts of two, of which the first is already stored.
use timberlake.Base.{
  member, remove, ℕ, ◌≤◌, ◌≡◌, refl, ◌∙◌, ◌++◌, flatten, false, List, [], ◌∷◌, Option, none, some,
  arith, length, drop, ◌==◌, append-nil, if◌then◌else◌,
}
use timberlake.Io.{Reads, codes, OpenFunc, Serves, Reader, ok, err, eq_text, copy_n, read_full, eof}
use timberlake.Strings.{trim, trim_left, trim_right, keep_right}
use timberlake.S3.Client.{Client, part_start, part_bytes, total_parts}
use timberlake.S3.Parts.{Fits, chunk, parts-cover, part_reads}
use timberlake.S3.Service.Memory.{Memory, memory, memory_laws, memory-Unmistakable, encode}
use timberlake.S3.Existing.{
  lookup, insert, part_md5_matches, md5_result, check_fields, check_present, check_part,
  check_parts, valid_existing_parts,
}
use timberlake.S3.Missing.{
  Event, turn, finish, Uploads, at, Job, Finished, once, upload_part, send_part, part_etag,
  record_part, after_check, turn_loop, step, run,
}
use timberlake.S3.Resume.{
  Answer, number_of, insert_part, sort_completed, seed_completed, seed_counters, is_finished,
  find_upload, find_in_progress_upload, after_upload, send_opened, send_whole, fresh_multipart,
  after_complete, complete_unless, complete_upload, finish_run, upload_rest, resume_checked,
  resume_multipart, finish_resumed, put_found, put,
}
use timberlake.S3.Resume
use timberlake.S3.Resume.Content.{put-object}
use timberlake.S3.Resume.Returns.{put-returns}
use timberlake.S3.Missing.Ends.{run-ends, steps_left}
use timberlake.S3.Existing.Kept.{AllKept, valid_existing_parts-Kept}

abbrev two_byte_parts : Client
two_byte_parts = record { bucket = codes "b"; prefix = []; part_size = 2; concurrency = 2 }

abbrev five_bytes : List ℕ
five_bytes = 10 ∷ 20 ∷ 30 ∷ 40 ∷ 50 ∷ []

abbrev open_five : OpenFunc
open_five off = ok (record { chunks = drop off five_bytes ∷ []; fault = none })

open_five-Reads : (off : ℕ) (r : Reader) → open_five off ≡ ok r → Reads r (drop off five_bytes)
unfolding flatten
open_five-Reads off r h =
    let r_is : r ≡ record { chunks = drop off five_bytes ∷ []; fault = none } = ground arith in
    rw r_is (
      [],
      append-nil (drop off five_bytes ++ []) ∙ append-nil (drop off five_bytes),
      (λ e. refl),
      (λ e. cc),
    )

five-Serves : Serves open_five five_bytes
five-Serves = record { reads = λ off r h. open_five-Reads off r h }

five-Fits : Fits two_byte_parts 5
five-Fits = record { positive = omega arith; no_wrap = omega arith; few = omega arith }

abbrev halfway : Memory
halfway = record {
  uploads = record { key = some (codes "k"); upload_id = some (codes "u") } ∷ [];
  parts = λ n. if n == 1 then some (10 ∷ 20 ∷ []) else none;
  object = none;
}

-- Part 3 ends before part 2.
abbrev crossing : List Event
crossing =
    turn false
    ∷ turn false
    ∷ turn false
    ∷ turn false
    ∷ turn false
    ∷ finish 3
    ∷ turn false
    ∷ finish 2
    ∷ []

abbrev answer_of : Option (Answer Memory) → Answer Memory
answer_of none = record { server = halfway; result = err eof; report = none }
answer_of (some a) = a

crossing_run : Option (Answer Memory)
unfolding put find_in_progress_upload find_upload put_found resume_multipart resume_checked
    valid_existing_parts check_parts check_part check_present check_fields part_md5_matches
    md5_result upload_rest finish_run is_finished complete_upload complete_unless after_complete
    finish_resumed sort_completed seed_completed seed_counters run step turn_loop after_check once
    member remove upload_part send_part part_etag record_part lookup insert part_start part_bytes
    total_parts copy_n read_full eq_text trim trim_left trim_right keep_right flatten Resume.finish
crossing_run = put memory two_byte_parts crossing halfway (codes "k") open_five 5

crossing_stores : crossing_run ≡ some (answer_of crossing_run)
unfolding crossing_run
crossing_stores = refl

crossing_succeeds : (answer_of crossing_run).result ≡ ok tt
unfolding crossing_run
crossing_succeeds = refl

put-object_example : (answer_of crossing_run).server.object ≡ some five_bytes
unfolding crossing_run
put-object_example =
    put-object memory memory_laws two_byte_parts open_five five_bytes five-Serves five-Fits
      (memory-Unmistakable (chunk 2 five_bytes)) (codes "k") crossing halfway
      (answer_of crossing_run) crossing_stores crossing_succeeds

-- The same upload, from its start to the end of its first goroutine.
abbrev job : Job
job = record {
  key = codes "k";
  upload_id = codes "u";
  open_at = open_five;
  size = 5;
  total = 3;
  existing = [];
}

abbrev started : Uploads Memory
started = record {
  loop = at 1;
  running = [];
  completed = none ∷ none ∷ none ∷ [];
  first_err = none;
  buffered = 0;
  server = halfway;
}

abbrev opening : List Event
opening = turn false ∷ turn false ∷ turn false ∷ turn false ∷ finish 1 ∷ []

abbrev uploads_of : Option (Uploads Memory) → Uploads Memory
uploads_of none = started
uploads_of (some u) = u

opening_run : Option (Uploads Memory)
unfolding run step turn_loop after_check once member remove upload_part send_part part_etag
    record_part lookup part_start part_bytes read_full flatten
opening_run = run memory two_byte_parts job opening started

opening_runs : run memory two_byte_parts job opening started ≡ some (uploads_of opening_run)
unfolding opening_run run step turn_loop after_check once member remove upload_part send_part
    part_etag record_part lookup part_start part_bytes read_full flatten
opening_runs = refl

run-ends_example :
    (length opening ≤ steps_left memory two_byte_parts job (omega arith) started)
    × ((fs : List Event) × (v : Uploads Memory) × (run memory two_byte_parts job fs
            (uploads_of opening_run)
          ≡ some v)
        × Finished v)
run-ends_example =
    run-ends memory two_byte_parts job (omega arith) opening started (uploads_of opening_run)
      (omega arith) (omega arith, omega arith) opening_runs

put-returns_example :
    (sched : List Event) × (a : Answer Memory) × (put memory two_byte_parts sched halfway
        (codes "k")
        open_five
        5
      ≡ some a)
put-returns_example =
    put-returns memory two_byte_parts 5 five-Fits (omega arith) open_five (codes "k") halfway

parts-cover_example :
    flatten (part_reads two_byte_parts five_bytes five-Fits 0 (total_parts two_byte_parts 5))
    ≡ five_bytes
parts-cover_example = parts-cover two_byte_parts five_bytes five-Fits

kept_run :
    valid_existing_parts memory two_byte_parts halfway (codes "k") (codes "u") open_five 5
    ≡ ok (some ((1, encode (10 ∷ 20 ∷ [])) ∷ []))
unfolding valid_existing_parts check_parts check_part check_present check_fields part_md5_matches
    md5_result insert part_start part_bytes total_parts copy_n eq_text trim trim_left trim_right
    keep_right flatten
kept_run = refl

valid_existing_parts-Kept_example :
    AllKept
      (memory_laws.stored halfway (codes "u"))
      2
      five_bytes
      3
      ((1, encode (10 ∷ 20 ∷ [])) ∷ [])
valid_existing_parts-Kept_example =
    valid_existing_parts-Kept memory memory_laws two_byte_parts open_five five_bytes five-Serves
      five-Fits (memory-Unmistakable (chunk 2 five_bytes)) halfway (codes "k") (codes "u")
      ((1, encode (10 ∷ 20 ∷ [])) ∷ []) kept_run
