-- ===== src/S3/Missing/Complete.antt =====
-- The invariant of the runs of uploadMissingParts (S3/Missing): what is known of each slot of the
-- slice of completed parts.
use timberlake.Base.{
  member, remove, ℕ, suc, ◌-◌, ◌<◌, ◌≤◌, ◌^◌, ◌≡◌, ◌≢◌, refl, sym, ap, ◌∙◌, ◌⊎◌, inl, inr, Bool,
  true, false, List, [], ◌∷◌, Option, none, some, and_then-inv, arith, length, drop, get_elem?,
  Bool-cases, ◌==◌, length-set, get_elem?-set_self, get_elem?-set_ne,
}
use timberlake.Io.{Text, Error, Serves, Result, ok, err, context, read_full}
use timberlake.Io.Readers.{read_full-take, >>=-inv, context-ok}
use timberlake.S3.Client.{Client, part_start, part_bytes}
use timberlake.S3.Parts.{Fits, count, count-lt, chunk, take-part}
use timberlake.S3.Service.{Service, Laws, CompletedPart}
use timberlake.S3.Existing.{lookup}
use timberlake.S3.Missing.{
  Loop, at, acquiring, ended, Uploads, Event, turn, finish, once, Job, part_etag, send_part,
  upload_part, record_part, after_check, turn_loop, step, run, Finished,
}

member-remove : (n m : ℕ) (ms : List ℕ) → n ≢ m → member m ms ≡ true → member m (remove n ms) ≡ true
unfolding member remove
member-remove n m [] ne h = cc
member-remove n m (k ∷ ms) ne h = ground (arith, member-remove n m ms ne)

member_of_remove : (n m : ℕ) (ms : List ℕ) → member m (remove n ms) ≡ true → member m ms ≡ true
unfolding member remove
member_of_remove n m [] h = cc
member_of_remove n m (k ∷ ms) h = ground (arith, member_of_remove n m ms)

pred_suc : (n : ℕ) → suc n - 1 ≡ n
pred_suc n = omega arith

abbrev pub failed : Option Error → Bool
failed none = false
failed (some e) = true

-- The loop has yet to come to part n.
abbrev pub Ahead : Loop → ℕ → Type 0
Ahead (at n) m = n ≤ m
Ahead (acquiring n) m = n ≤ m
Ahead ended m = ⊥

abbrev pub InRange : Loop → ℕ → Type 0
InRange (at n) total = (1 ≤ n) × (n ≤ suc total)
InRange (acquiring n) total = (1 ≤ n) × (n ≤ total)
InRange ended total = Unit {0}

-- Part i + 1 is in the slice, and stored with the bytes of its part of the file.
abbrev pub Done : (ℕ → Option (List ℕ × Text)) → ℕ → List ℕ → List CompletedPart → ℕ → Type 0
Done parts size content completed i =
    (e : Text) × (get_elem? completed i ≡ some (some (suc i, e)))
    × (parts (suc i) ≡ some (chunk size content i, e))

module _ (svc : Service) (laws : Laws svc) (s : Client) (j : Job) (content : List ℕ)
    (serves : Serves j.open_at content) (fits : Fits s (length content))
    (sized : j.size ≡ length content) (counted : j.total ≡ count s (length content)) where
  open svc use {State, put_part}
  open laws use {stored, put_part_self, put_part_ne}

  abbrev Slot : Uploads State → ℕ → Type 0
  Slot u i =
      (failed u.first_err ≡ true)
      ⊎ ((Ahead u.loop (suc i) × (lookup (suc i) j.existing ≡ none))
          ⊎ ((member (suc i) u.running ≡ true)
              ⊎ Done (stored u.server j.upload_id) s.part_size content u.completed i))

  pub record Inv (u : Uploads State) : Type 0 where
    pub slots : (i : ℕ) → i < j.total → Slot u i
    pub position : InRange u.loop j.total
    pub sized_slice : length u.completed ≡ j.total
    pub parts_running : (m : ℕ) → member m u.running ≡ true → (1 ≤ m) × (m ≤ j.total)

  small : j.total < 2 ^ 31 - 1
  small = rw counted (count-lt s (length content) fits)

  part_etag-inv :
      (x : State × Result (Option Text)) (σ' : State) (e : Text)
      → part_etag svc s x ≡ (σ', ok e)
      → x ≡ (σ', ok (some e))
  unfolding part_etag
  part_etag-inv (σ, ok (some d)) σ' e p = ground arith
  part_etag-inv (σ, ok none) σ' e p = ground arith
  part_etag-inv (σ, err d) σ' e p = ground arith

  send_part-inv :
      (n b b' : ℕ) (σ σ' : State) (e : Text) (r : Result (List ℕ))
      → send_part svc s j n σ b r ≡ (b', (σ', ok e))
      → (buf : List ℕ) × (r ≡ ok buf) × (put_part σ j.key j.upload_id n buf ≡ (σ', ok (some e)))
  unfolding send_part
  send_part-inv n b b' σ σ' e (ok buf) p = (buf, refl, part_etag-inv _ σ' e (ap (λ t. t.1) p))
  send_part-inv n b b' σ σ' e (err d) p = ground arith

  -- A part that was uploaded has the bytes of its part of the file.
  upload_part-sends :
      (i : ℕ) (σ σ' : State) (b b' : ℕ) (e : Text)
      → i < j.total
      → upload_part svc s j (suc i) σ b ≡ (b', (σ', ok e))
      → put_part σ j.key j.upload_id (suc i) (chunk s.part_size content i) ≡ (σ', ok (some e))
  unfolding upload_part
  upload_part-sends i σ σ' b b' e h p =
      let (buf, got, sent) = send_part-inv (suc i) b b' σ σ' e _ p in
      let (r, opened, full) =
        >>=-inv (context "open part" (j.open_at (part_start s (suc i)))) _ got in
      let reads =
        serves.reads (part_start s (suc i)) r
          (context-ok "open part" (j.open_at (part_start s (suc i))) opened) in
      let body =
        read_full-take r (drop (part_start s (suc i)) content) reads (part_bytes s (suc i) j.size)
          (context-ok "read part" (read_full r (part_bytes s (suc i) j.size)) full) in
      let whole : buf ≡ chunk s.part_size content i =
        body ∙ rw sized (take-part s content fits i (rw counted at h)) in
      rw (← whole) sent

  turn-Slot :
      (done : Bool) (u u' : Uploads State) (l : Loop) (i : ℕ)
      → u.loop ≡ l
      → turn_loop svc s j done u l ≡ some u'
      → InRange l j.total
      → i < j.total
      → Slot u i
      → Slot u' i
  unfolding turn_loop after_check once member
  turn-Slot done u u' (at n) i at_l p range h slot = ground (arith, small)
  turn-Slot done u u' (acquiring n) i at_l p range h slot = ground (arith, small)
  turn-Slot done u u' ended i at_l p range h slot = ground (arith, small)

  turn-rest :
      (done : Bool) (u u' : Uploads State) (l : Loop)
      → turn_loop svc s j done u l ≡ some u'
      → InRange l j.total
      → InRange u'.loop j.total × (u'.completed ≡ u.completed)
  unfolding turn_loop after_check once
  turn-rest done u u' (at n) p range = ground (arith, small)
  turn-rest done u u' (acquiring n) p range = ground (arith, small)
  turn-rest done u u' ended p range = ground (arith, small)

  finish-Slot :
      (k i : ℕ) (u : Uploads State) (x : ℕ × (State × Result Text))
      → upload_part svc s j (suc k) u.server u.buffered ≡ x
      → k < j.total
      → length u.completed ≡ j.total
      → Slot u i
      → Slot (record_part svc s (suc k) u x) i
  unfolding record_part once
  finish-Slot k i u (b, (σ, err e)) p h sized_slice slot = inl (ground arith)
  finish-Slot k i u (b, (σ, ok e)) p h sized_slice slot =
      let sent = upload_part-sends k u.server σ u.buffered b e h p in
      elim (Bool-cases (k == i)) [
        | inl same ↦ inr (
            inr (
              inr (
                e,
                rw (let k_i : k ≡ i = ground arith in sym k_i, pred_suc k)
                    (get_elem?-set_self u.completed k (some (suc k, e)) (omega arith)),
                rw (let k_i : k ≡ i = ground arith in sym k_i) (
                    put_part_self u.server σ j.key j.upload_id (suc k) (chunk s.part_size content k)
                      e sent),
              )))
        | inr other ↦ keep other sent slot
      ]
    where
      keep :
          (k == i) ≡ false
          → put_part u.server j.key j.upload_id (suc k) (chunk s.part_size content k)
            ≡ (σ, ok (some e))
          → Slot u i
          → Slot (record_part svc s (suc k) u (b, (σ, ok e))) i
      keep other sent (inl f) = inl f
      keep other sent (inr (inl a)) = inr (inl a)
      keep other sent (inr (inr (inl m))) =
          inr (inr (inl (member-remove (suc k) (suc i) u.running (ground arith) m)))
      keep other sent (inr (inr (inr (d, at_i, st)))) = inr (
          inr (
            inr (
              d,
              rw (pred_suc k) (get_elem?-set_ne u.completed k i (some (suc k, e)) (ground arith))
                  ∙ at_i,
              put_part_ne u.server σ j.key j.upload_id (suc k) (chunk s.part_size content k) e
                    (suc i) sent (ground arith)
                  ∙ st,
            )))

  finish-rest :
      (n : ℕ) (u : Uploads State) (x : ℕ × (State × Result Text))
      → let u' = record_part svc s n u x in
        (u'.loop ≡ u.loop)
        × (length u'.completed ≡ length u.completed)
        × (u'.running ≡ remove n u.running)
  unfolding record_part
  finish-rest n u (b, (σ, err e)) = (refl, refl, refl)
  finish-rest n u (b, (σ, ok e)) = (refl, length-set u.completed (n - 1) (some (n, e)), refl)

  turn-running :
      (done : Bool) (u u' : Uploads State) (l : Loop)
      → turn_loop svc s j done u l ≡ some u'
      → InRange l j.total
      → (m : ℕ) → member m u'.running ≡ true
      → (member m u.running ≡ true) ⊎ ((1 ≤ m) × (m ≤ j.total))
  unfolding turn_loop after_check once member
  turn-running done u u' (at n) p range m h = ground (arith, small)
  turn-running done u u' (acquiring n) p range m h = ground (arith, small)
  turn-running done u u' ended p range m h = ground (arith, small)

  step-finish :
      (n : ℕ) (u u' : Uploads State)
      → step svc s j (finish n) u ≡ some u'
      → (member n u.running ≡ true)
        × (u' ≡ record_part svc s n u (upload_part svc s j n u.server u.buffered))
  unfolding step
  step-finish n u u' p = ground arith

  finish-Inv :
      (k : ℕ) (u : Uploads State)
      → Inv u
      → k < j.total
      → Inv (record_part svc s (suc k) u (upload_part svc s j (suc k) u.server u.buffered))
  finish-Inv k u v h =
      let x = upload_part svc s j (suc k) u.server u.buffered in
      let rest = finish-rest (suc k) u x in
      record {
        slots = λ i b. finish-Slot k i u x refl h v.sized_slice (v.slots i b);
        position = rw rest.0 v.position;
        sized_slice = rest.1 ∙ v.sized_slice;
        parts_running =
            λ m r. v.parts_running m (member_of_remove (suc k) m u.running (rw rest.2 at r));
      }

  step-Inv : (e : Event) (u u' : Uploads State) → Inv u → step svc s j e u ≡ some u' → Inv u'
  step-Inv (turn done) u u' v p =
      let turned : turn_loop svc s j done u u.loop ≡ some u' = unfold step in p in
      let rest = turn-rest done u u' u.loop turned v.position in
      record {
        slots = λ i h. turn-Slot done u u' u.loop i refl turned v.position h (v.slots i h);
        position = rest.0;
        sized_slice = ap length rest.1 ∙ v.sized_slice;
        parts_running = λ m h. elim (turn-running done u u' u.loop turned v.position m h) [
          | inl r ↦ v.parts_running m r
          | inr b ↦ b
        ];
      }
  step-Inv (finish n) u u' v p =
      let (running, eq) = step-finish n u u' p in
      let range = v.parts_running n running in
      let suc_pred : n ≡ suc (n - 1) = omega (arith, range.0) in
      rw (eq, suc_pred) (finish-Inv (n - 1) u v (omega (arith, range)))

  pub run-Inv :
      (es : List Event) (u u' : Uploads State) → Inv u → run svc s j es u ≡ some u' → Inv u'
  unfolding run
  run-Inv [] u u' v p = let same : u ≡ u' = cc in rw (sym same) v
  run-Inv (e ∷ es) u u' v p =
      let (u₁, first, rest) = and_then-inv (run svc s j es) (step svc s j e u) p in
      run-Inv es u₁ u' (step-Inv e u u₁ v first) rest

  -- A finished run that met no error has every part of the file in the slice and in the store.
  pub Finished-Done :
      (u : Uploads State)
      → Inv u
      → Finished u
      → u.first_err ≡ none
      → (i : ℕ) → i < j.total
      → Done (stored u.server j.upload_id) s.part_size content u.completed i
  unfolding member
  Finished-Done u v (l, r) e i h = pick (v.slots i h)
    where
      pick : Slot u i → Done (stored u.server j.upload_id) s.part_size content u.completed i
      pick (inl f) = cc (rw e at f)
      pick (inr (inl (a, _))) = absurd (rw l at a)
      pick (inr (inr (inl m))) = cc (rw r at m)
      pick (inr (inr (inr d))) = d
