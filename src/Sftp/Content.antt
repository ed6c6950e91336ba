-- ===== src/Sftp/Content.antt =====
-- What Put (Sftp) leaves at the destination.
use timberlake.Base.{
  ℕ, ◌+◌, ◌-◌, ◌<◌, ◌^◌, ◌≡◌, refl, sym, ap, ◌∙◌, ◌⊎◌, inl, inr, Bool, true, List, [], ◌++◌,
  append-nil, Option, none, some, arith, length, take, drop, if◌then◌else◌,
}
use timberlake.Base.Words.{lt64}
use timberlake.Base.Slices.{take_all, drop_all, take-append-drop}
use timberlake.Io.Readers.{context-ok}
use timberlake.Io.{Text, Error, OpenFunc, Serves, Reads, Reader, Result, ok, err}
use timberlake.Copy.{Copied, says_yes}
use timberlake.Copy.Prefix.{
  Resumed, Extends-Resumed, Reads-bound, copy_loop-Extends, same_prefix-true,
}
use timberlake.Sftp.{
  Env, Outcome, write_at, sought, partial_matches, resume_from, opened, finish_copy, copy_from,
  write_out, needs_mkdir, put_made, put,
}

-- At the end of the file a write appends.
write_at-append :
    (file : List ℕ) (n : ℕ) (c : List ℕ) → n ≡ length file → write_at file n c ≡ file ++ c
unfolding write_at
write_at-append file n c at_end =
    rw (take_all n file (omega arith), drop_all (n + length c) file (omega arith))
      (rw (let gap : n - length file ≡ 0 = omega arith in gap) (rw (append-nil file, append-nil c)))

-- The destination is as it was, or has a prefix of the content; after a success it has all of it.
record IsSafe (before : Option (List ℕ)) (content : List ℕ) (o : Outcome) : Type 0 where
  pub kept_or_prefix :
      (o.file ≡ before)
      ⊎ ((p : List ℕ) × (rest : List ℕ) × (o.file ≡ some p) × (p ++ rest ≡ content))
  pub whole : o.result ≡ ok tt → o.file ≡ some content

module _ (sha256 : List ℕ → Text) (env : Env) (file : Option (List ℕ)) (open_at : OpenFunc)
    (content : List ℕ) (size : ℕ) (serves : Serves open_at content)
    (reads_file : (f : List ℕ) (r : Reader) → file ≡ some f → env.open_file f ≡ ok r → Reads r f)
    (unmistakable : (f : List ℕ)
      → file ≡ some f
      → sha256 (take (length f) f) ≡ sha256 (take (length f) content)
      → take (length f) f ≡ take (length f) content)
    (small : length content < 2 ^ 63)
    (small_file : (f : List ℕ) → file ≡ some f → length f < 2 ^ 63) where
  -- The output file is opened with the first bytes of the content, up to the offset.
  abbrev Based : ℕ → Type 0
  Based start =
      (opened sha256 start file ≡ take start content) × (start ≡ length (opened sha256 start file))

  says_yes-true : (r : Result Bool) → says_yes r ≡ true → r ≡ ok true
  says_yes-true (ok b) h = ground arith
  says_yes-true (err e) h = cc

  resumed-Based :
      (f : List ℕ)
      → file ≡ some f
      → 0 < length f
      → says_yes (partial_matches sha256 env f open_at (length f)) ≡ true
      → Based (length f)
  unfolding partial_matches
  resumed-Based f at_file pos yes_it_does =
      let matches =
        same_prefix-true sha256 (env.open_file f) (open_at 0) (length f) f content
          (unmistakable f at_file) (λ r. reads_file f r at_file) (serves.reads 0)
          (says_yes-true _ yes_it_does) in
      let f_is : f ≡ take (length f) content =
        sym (take_all (length f) f (omega arith)) ∙ matches in
      let signed : lt64 0 (length f) ≡ true = ground (arith, small_file f at_file) in
      rw (signed, at_file) (f_is, refl)

  resume_from-cases :
      (u : Unit {0}) (f : List ℕ)
      → file ≡ some f
      → (resume_from sha256 env (ok u) (some f) open_at size ≡ 0)
        ⊎ ((resume_from sha256 env (ok u) (some f) open_at size ≡ length f)
            × (0 < length f)
            × (says_yes (partial_matches sha256 env f open_at (length f)) ≡ true))
  unfolding resume_from
  resume_from-cases u f at_file = ground (arith, small_file f at_file)

  resume_from-Based :
      (st : Result (Unit {0})) (g : Option (List ℕ))
      → file ≡ g
      → Based (resume_from sha256 env st g open_at size)
  resume_from-Based (err e) g at_file = unfold resume_from in (refl, refl)
  resume_from-Based (ok u) none at_file = unfold resume_from in (refl, refl)
  resume_from-Based (ok u) (some f) at_file = elim (resume_from-cases u f at_file) [
    | inl anew ↦ rw anew (refl, refl)
    | inr (there, pos, matches) ↦ rw there (resumed-Based f at_file pos matches)
  ]

  copied-IsSafe :
      (start : ℕ) (c : Copied)
      → Resumed start content c
      → IsSafe file content (finish_copy sha256 size c)
  unfolding finish_copy
  copied-IsSafe start c r = record {
    kept_or_prefix = inr (c.file, r.missing, refl, r.so_far);
    whole = λ h. ap some (r.whole (context-ok "copy" c.result h));
  }

  -- An output that has been opened, and no more.
  opened-IsSafe :
      (start : ℕ)
      → Based start
      → (e : Error)
      → IsSafe file content
          (record { file = some (opened sha256 start file); reports = []; result = err e })
  opened-IsSafe start b e = record {
    kept_or_prefix = inr (
      opened sha256 start file,
      drop start content,
      refl,
      ap (λ t. t ++ drop start content) b.0 ∙ take-append-drop start content,
    );
    whole = λ h. cc;
  }

  copy_from-IsSafe :
      (start : ℕ) (src : Result Reader)
      → Based start
      → open_at start ≡ src
      → IsSafe file content (copy_from sha256 env size start (opened sha256 start file) src)
  unfolding copy_from
  copy_from-IsSafe start (err e) b opened_src = opened-IsSafe start b _
  copy_from-IsSafe start (ok src) b opened_src = copied-IsSafe start _ (
      Extends-Resumed start (opened sha256 start file) content src _ b.0 b.1
        (serves.reads start src opened_src)
        (copy_loop-Extends write_at write_at-append env.room start (opened sha256 start file)
          src.chunks src.fault b.1
          (let fits =
              Reads-bound start (opened sha256 start file) content src b.0 b.1
                (serves.reads start src opened_src) in
            omega (arith, fits))))

  put-IsSafe : IsSafe file content (put sha256 env file open_at size)
  unfolding put
  put-IsSafe = made (if needs_mkdir env.dir then env.mkdir else ok tt)
    where
      seek :
          (r : Result (Unit {0})) (start : ℕ)
          → Based start
          → IsSafe file content (sought sha256 env r (opened sha256 start file) open_at size start)
      seek (err e) start b = unfold sought in opened-IsSafe start b _
      seek (ok u) start b = unfold sought in copy_from-IsSafe start (open_at start) b refl

      out :
          (r : Result (Unit {0})) (start : ℕ)
          → Based start
          → IsSafe file content (write_out sha256 env r file open_at size start)
      out (err e) start b =
          unfold write_out in record { kept_or_prefix = inl refl; whole = λ h. cc }
      out (ok u) start b =
          unfold write_out in seek (if lt64 0 start then env.seek else ok tt) start b

      made : (r : Result (Unit {0})) → IsSafe file content (put_made sha256 env r file open_at size)
      made (err e) = unfold put_made in record { kept_or_prefix = inl refl; whole = λ h. cc }
      made (ok u) =
          unfold put_made in
          out env.open_out (resume_from sha256 env env.stat file open_at size)
            (resume_from-Based env.stat file refl)

  -- When Put returns nil, the file has exactly the bytes of the source. What is assumed: the source
  -- does not change meanwhile, reading the partial file gives its bytes, lengths fit int64, and the
  -- partial file has the SHA-256 of the prefix of its length only if it is that prefix.
  pub put-content_remote :
      (put sha256 env file open_at size).result ≡ ok tt
      → (put sha256 env file open_at size).file ≡ some content
  put-content_remote h = put-IsSafe.whole h

  -- Whatever fails, at whichever call: the file is as it was before or has a prefix of the bytes of
  -- the source. Under the same assumptions.
  pub put-prefix_remote :
      ((put sha256 env file open_at size).file ≡ file)
      ⊎ ((p : List ℕ) × (rest : List ℕ) × ((put sha256 env file open_at size).file ≡ some p)
          × (p ++ rest ≡ content))
  put-prefix_remote = put-IsSafe.kept_or_prefix
