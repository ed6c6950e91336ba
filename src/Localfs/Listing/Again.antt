-- ===== src/Localfs/Listing/Again.antt =====
-- Put (Localfs) and the check of a later run: os.Stat of what Put left, and what a worker of ui/update.go
-- makes of it.
use timberlake.Base.{
  ℕ, ◌<◌, ◌^◌, ◌≡◌, ◌↔◌, refl, sym, ap, ◌∙◌, inl, inr, Bool, true, false, [], ◌∷◌, List, ◌++◌,
  append-nil, Option, none, some, arith, length, length-append, take,
}
use timberlake.Io.{Text, Error, OpenFunc, Serves, Reads, Reader, Result, ok, err}
use timberlake.Localfs.{Env, put}
use timberlake.Localfs.Content.{put-content, put-prefix}
use timberlake.Localfs.Listing.{stat}
use timberlake.Ui.Model.{Status}
use timberlake.Ui.Pool.{
  Settings, Pool, Stage, Queued, existing, is_complete, after_stat, become, says,
}

-- os.Stat of the destination: the size of the file, or that it is not there.
abbrev pub measured : Error → Option (List ℕ) → Result ℕ
measured gone none = err gone
measured gone (some f) = ok (length f)

-- The check of one item by a worker, of the file that is there.
abbrev pub finds : Settings → Queued → (Error → Bool) → Error → Option (List ℕ) → Result (Bool × ℕ)
finds s q is_not_exist gone file = existing s q (stat is_not_exist (measured gone file))

module _ (s : Settings) (no_listing : s.known ≡ none) (q : Queued) (is_not_exist : Error → Bool)
    (gone : Error) where
  finds-file : (file : List ℕ) → finds s q is_not_exist gone (some file) ≡ ok (true, length file)
  unfolding existing stat
  finds-file file = rw no_listing refl

  complete-file :
      (file : Option (List ℕ))
      → is_complete s q (finds s q is_not_exist gone file) ≡ true
      → (f : List ℕ) × (file ≡ some f) × (length f ≡ q.item.size)
  unfolding existing stat is_complete
  complete-file none h = ground (arith, no_listing)
  complete-file (some f) h = (f, refl, ground (arith, no_listing))

  skipped :
      (i : ℕ) (p : Pool) (file : List ℕ)
      → length file ≡ q.item.size
      → after_stat s i q (finds s q is_not_exist gone (some file)) p
        ≡ become i Stage.idle (says i q Status.skipped [] 0 ∷ []) p
  unfolding after_stat is_complete
  skipped i p file same = rw (finds-file file) ground arith

same_size :
    (s : Settings) (q : Queued) (n : ℕ) → q.item.size ≡ n → is_complete s q (ok (true, n)) ≡ true
unfolding is_complete
same_size s q n e = rw e ground arith

-- The one list of the right length among the prefixes is the whole.
whole_prefix :
    (p rest content : List ℕ) → p ++ rest ≡ content → length p ≡ length content → p ≡ content
whole_prefix p [] content joins same = sym (append-nil p) ∙ joins
whole_prefix p (b ∷ rest) content joins same =
    absurd (let sum = length-append p (b ∷ rest) in omega (arith, ap length joins, sum))

module _ (sha256 : List ℕ → Text) (env : Env) (file : Option (List ℕ)) (open_at : OpenFunc)
    (content : List ℕ) (size : ℕ) (serves : Serves open_at content)
    (reads_file : (f : List ℕ) (r : Reader) → file ≡ some f → env.open_file f ≡ ok r → Reads r f)
    (unmistakable : (f : List ℕ)
      → file ≡ some f
      → sha256 (take (length f) f) ≡ sha256 (take (length f) content)
      → take (length f) f ≡ take (length f) content)
    (small : length content < 2 ^ 63)
    (small_file : (f : List ℕ) → file ≡ some f → length f < 2 ^ 63) where
  abbrev after : Option (List ℕ)
  after = (put sha256 env file open_at size).file

  -- After a Put that returned nil, a worker of a later run without a listing skips the item of
  -- `content`. Under the assumptions of put-Checked.
  put-Skips :
      (s : Settings) (q : Queued) (is_not_exist : Error → Bool) (gone : Error) (i : ℕ) (p : Pool)
      → s.known ≡ none
      → q.item.size ≡ length content
      → (put sha256 env file open_at size).result ≡ ok tt
      → after_stat s i q (finds s q is_not_exist gone after) p
        ≡ become i Stage.idle (says i q Status.skipped [] 0 ∷ []) p
  put-Skips s q is_not_exist gone i p no_listing sized fine =
      let is_content =
        put-content sha256 env file open_at content size serves reads_file unmistakable small
          small_file fine in
      rw is_content (skipped s no_listing q is_not_exist gone i p content (sym sized))

  -- A later run, without a listing, checks the item of `content`, whose file was not of its size
  -- before Put: whatever failed in Put, the check calls the item complete exactly if the file has
  -- all the bytes of the source and no others, so that no interrupted copy is taken for complete.
  -- What is assumed: the source does not change, reading the partial file gives its bytes, lengths
  -- fit int64, the partial file has the SHA-256 of the prefix of its length only if it is that
  -- prefix, and the item's size is that of the source.
  pub put-Checked :
      (s : Settings) (q : Queued) (is_not_exist : Error → Bool) (gone : Error)
      → s.known ≡ none
      → q.item.size ≡ length content
      → is_complete s q (finds s q is_not_exist gone file) ≡ false
      → (is_complete s q (finds s q is_not_exist gone after) ≡ true) ↔ (after ≡ some content)
  put-Checked s q is_not_exist gone no_listing sized before = (checked, found)
    where
      checked : is_complete s q (finds s q is_not_exist gone after) ≡ true → after ≡ some content
      checked h =
          elim (put-prefix sha256 env file open_at content size serves reads_file unmistakable small
            small_file) [
              | inl kept ↦ absurd (cc (h, before, kept))
              | inr (p, rest, is_p, joins) ↦
                  let (f, is_f, long) = complete-file s no_listing q is_not_exist gone _ h in
                  let same : length p ≡ length content = ground (arith, is_p, is_f, long, sized) in
                  is_p ∙ ap some (whole_prefix p rest content joins same)
            ]

      found : after ≡ some content → is_complete s q (finds s q is_not_exist gone after) ≡ true
      found is_content =
          rw (is_content, finds-file s no_listing q is_not_exist gone content)
            (same_size s q (length content) sized)
