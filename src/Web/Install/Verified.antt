-- ===== src/Web/Install/Verified.antt =====
-- What an install leaves at ManagedPath (Web/Install).
use timberlake.Base.{
  ℕ, ◌-◌, ◌≡◌, ◌≢◌, refl, sym, ap, ◌∙◌, ◌⊎◌, inl, inr, Bool, true, false, List, [], ◌∷◌, ◌++◌,
  flatten, Option, none, some, some_inj, arith, length, take, leb, Bool-cases, if◌then◌else◌,
}
use timberlake.Base.Words.{add64}
use timberlake.Base.Slices.{take_all}
use timberlake.Io.{
  Text, eq_text, Error, eof, message, wrapped, Result, ok, err, ◌>>=◌, context, Reader, bytes,
  copy_n, end_error,
}
use timberlake.Io.Readers.{eq_text_sound, >>=-inv, context-ok, ok_inj}
use timberlake.Web.Install.{
  Asset, find_asset, assets, downloading, verifying, done, failed, Installer, Binary, Response,
  Entry, Answers, check_asset, check_path, check_status, prepare, Download, download, find_entry,
  max_binary, bounded_copy, extract, place, Outcome, make_executable, verify, after_download, fetch,
  run, with_result, install, is_busy,
}

-- The file of an archive: at most max_binary bytes of its first regular entry called cloudflared.
abbrev pub FromArchive : Answers → List ℕ → List ℕ → Type 0
FromArchive a body content =
    (archive : List Entry × Option Error) × (entry : Entry) × (a.archive body ≡ ok archive)
    × (find_entry archive ≡ ok entry)
    × (content ≡ take max_binary (bytes entry.content))

bounded_copy-same :
    (e : Option Error) (got content : List ℕ) → bounded_copy (got, e) ≡ ok content → content ≡ got
unfolding bounded_copy
bounded_copy-same none got content h = cc
bounded_copy-same (some eof) got content h = cc
bounded_copy-same (some e) got content h = cc

bounded_copy-take :
    (n : ℕ) (r : Reader) (content : List ℕ)
    → bounded_copy (copy_n r n) ≡ ok content
    → content ≡ take n (bytes r)
unfolding copy_n
bounded_copy-take n r content h = elim (Bool-cases (leb n (length (bytes r)))) [
  | inl long ↦ bounded_copy-same none (take n (bytes r)) content (rw long at h)
  | inr short ↦
      bounded_copy-same (some (end_error r.fault)) (bytes r) content (rw short at h)
      ∙ sym (take_all n (bytes r) (ground arith))
]

extract-FromArchive :
    (a : Answers) (body content : List ℕ) → extract a body ≡ ok content → FromArchive a body content
unfolding extract
extract-FromArchive a body content h =
    let (archive, opened, rest₁) = >>=-inv (context "reading archive" (a.archive body)) _ h in
    let (entry, found, rest₂) = >>=-inv (find_entry archive) _ rest₁ in
    let (u, created, rest₃) = >>=-inv a.create_out _ rest₂ in
    let (got, copied, rest₄) = >>=-inv (bounded_copy (copy_n entry.content max_binary)) _ rest₃ in
    let (v, closed, rest₅) = >>=-inv a.close_out _ rest₄ in
    let (w, renamed, rest₆) = >>=-inv a.rename _ rest₅ in
    (
      archive,
      entry,
      context-ok "reading archive" (a.archive body) opened,
      found,
      sym (ok_inj got content rest₆) ∙ bounded_copy-take max_binary entry.content got copied,
    )

abbrev pub Placed : Answers → Asset → List ℕ → List ℕ → Type 0
Placed a asset body content =
    ((asset.tgz ≡ false) × (content ≡ body)) ⊎ ((asset.tgz ≡ true) × FromArchive a body content)

place-Placed :
    (a : Answers) (asset : Asset) (body content : List ℕ)
    → place a asset body ≡ ok content
    → Placed a asset body content
unfolding place
place-Placed a asset body content h = elim (Bool-cases asset.tgz) [
  | inl tgz ↦ inr (tgz, extract-FromArchive a body content (rw tgz at h))
  | inr plain ↦
      let (u, renamed, rest) = >>=-inv (context "installing" a.rename) _ (rw plain at h) in
      inl (plain, sym (ok_inj body content rest))
]

download-whole :
    (room : Option ℕ) (n : ℕ) (cs : List (List ℕ)) (fault : Option Error)
    → (download room n cs fault).result ≡ ok tt
    → (download room n cs fault).content ≡ flatten cs
unfolding download flatten
download-whole room n [] none h = refl
download-whole room n [] (some e) h = refl
download-whole none n (c ∷ cs) fault h =
    ap (λ t. c ++ t) (download-whole none (add64 n (length c)) cs fault h)
download-whole (some k) n (c ∷ cs) fault h = elim (Bool-cases (leb (length c) k)) [
  | inl fits ↦ rw fits (
      ap (λ t. c ++ t)
        (download-whole (some (k - length c)) (add64 n (length c)) cs fault (rw fits at h)))
  | inr full ↦ cc (rw full at h)
]

module _ (sha256_hex : List ℕ → Text) (platform : Text) (a : Answers) (old : Option Binary) where
  -- A downloaded build of this platform with the pinned hash, and what comes of it.
  abbrev pub FromBuild : List ℕ → Type 0
  FromBuild content =
      (asset : Asset) × (resp : Response) × (find_asset platform assets ≡ some asset)
      × (a.response ≡ ok resp)
      × (sha256_hex (bytes resp.body) ≡ asset.sha256)
      × Placed a asset (bytes resp.body) content

  -- How a run ends: with nothing changed and an error; or with such a file in place, which can be
  -- run if there is no error, and cannot if there is one.
  abbrev Ends : Outcome → Type 0
  Ends o =
      ((e : Error) × (o.result ≡ err e) × (o.binary ≡ old))
      ⊎ ((content : List ℕ) × FromBuild content
          × (((o.result ≡ ok tt)
                × (o.binary ≡ some (record { content = content; executable = true })))
              ⊎ ((e : Error) × (o.result ≡ err e)
                  × (a.chmod ≢ ok tt)
                  × (o.binary ≡ some (record { content = content; executable = false })))))

  make_executable-Ends :
      (i : Installer) (r : Result (List ℕ))
      → ((content : List ℕ) → r ≡ ok content → FromBuild content)
      → Ends (make_executable a i old r)
  unfolding make_executable
  make_executable-Ends i (err e) built = inl (e, refl, refl)
  make_executable-Ends i (ok content) built =
      inr (content, built content refl, by_chmod a.chmod refl)
    where
      by_chmod :
          (c : Result (Unit {0}))
          → a.chmod ≡ c
          → let o = make_executable a i old (ok content) in
            ((o.result ≡ ok tt)
              × (o.binary ≡ some (record { content = content; executable = true })))
            ⊎ ((e : Error) × (o.result ≡ err e)
                × (a.chmod ≢ ok tt)
                × (o.binary ≡ some (record { content = content; executable = false })))
      by_chmod (ok u) c = inl (rw c refl, rw c refl)
      by_chmod (err e) c =
          inr (wrapped "making it executable" e, rw c refl, (λ g. cc (sym c ∙ g)), rw c refl)

  verify-Ends :
      (asset : Asset) (resp : Response) (i : Installer)
      → find_asset platform assets ≡ some asset
      → a.response ≡ ok resp
      → Ends (verify sha256_hex a asset i old (bytes resp.body))
  unfolding verify
  verify-Ends asset resp i found got = elim (Bool-cases (eq_text (sha256_hex body) asset.sha256)) [
    | inl right ↦ rw right (
        make_executable-Ends (record i { state = verifying; error = none }) (place a asset body)
          (λ content h. (
            asset,
            resp,
            found,
            got,
            eq_text_sound (sha256_hex body) asset.sha256 right,
            place-Placed a asset body content h,
          )))
    | inr wrong ↦ rw wrong (inl (_, refl, refl))
  ]
    where
      body : List ℕ
      body = bytes resp.body

  after_download-Ends :
      (asset : Asset) (resp : Response) (i : Installer) (d : Download)
      → find_asset platform assets ≡ some asset
      → a.response ≡ ok resp
      → (d.result ≡ ok tt → d.content ≡ bytes resp.body)
      → Ends (after_download sha256_hex a asset i old d)
  unfolding after_download
  after_download-Ends asset resp i d found got whole = by_result d.result refl a.close_temp
    where
      checked : Outcome
      checked = verify sha256_hex a asset (record i { received = d.received }) old d.content

      by_result :
          (r : Result (Unit {0}))
          → d.result ≡ r
          → (closed : Result (Unit {0}))
          → Ends (elim (context "downloading cloudflared" r >>= λ u. closed) [
            | err e ↦ record {
              installer = record i { received = d.received };
              binary = old;
              result = err e;
            }
            | ok u ↦ checked
          ])
      by_result (err e) h closed = inl (_, refl, refl)
      by_result (ok tt) h (err e) = inl (_, refl, refl)
      by_result (ok tt) h (ok u) =
          rw (whole h) (verify-Ends asset resp (record i { received = d.received }) found got)

  check_asset-ok : (o : Option Asset) (asset : Asset) → check_asset o ≡ ok asset → o ≡ some asset
  unfolding check_asset
  check_asset-ok none asset h = cc
  check_asset-ok (some x) asset h = cc

  check_status-ok : (r r' : Response) → check_status r ≡ ok r' → r ≡ r'
  unfolding check_status
  check_status-ok r r' h = by_ok r.is_ok h
    where
      by_ok :
          (b : Bool)
          → (if b then ok r else err (message "downloading cloudflared: HTTP status")) ≡ ok r'
          → r ≡ r'
      by_ok true h = ok_inj r r' h
      by_ok false h = cc

  prepare-ok :
      (asset : Asset) (resp : Response)
      → prepare platform a ≡ ok (asset, resp)
      → (find_asset platform assets ≡ some asset) × (a.response ≡ ok resp)
  unfolding prepare
  prepare-ok asset resp h =
      let (asset', named, rest₁) = >>=-inv (check_asset (find_asset platform assets)) _ h in
      let (u, there, rest₂) = >>=-inv (check_path a.path) _ rest₁ in
      let (v, made, rest₃) = >>=-inv (context "creating the directory" a.mkdir) _ rest₂ in
      let (w, asked, rest₄) = >>=-inv a.request _ rest₃ in
      let (r, answered, rest₅) = >>=-inv (context "downloading cloudflared" a.response) _ rest₄ in
      let (r', fine, rest₆) = >>=-inv (check_status r) _ rest₅ in
      let both : (asset', r') ≡ (asset, resp) = ok_inj (asset', r') (asset, resp) rest₆ in
      (
        check_asset-ok _ asset' named ∙ ap some (ap (λ t. t.0) both),
        context-ok "downloading cloudflared" a.response answered
            ∙ ap ok (check_status-ok r r' fine ∙ ap (λ t. t.1) both),
      )

  fetch-Ends :
      (i : Installer) (r : Result (Asset × Response))
      → prepare platform a ≡ r
      → Ends (fetch sha256_hex a i old r)
  unfolding fetch
  fetch-Ends i (err e) h = inl (_, refl, refl)
  fetch-Ends i (ok (asset, resp)) h = by_temp a.create_temp
    where
      i' : Installer
      i' = record i { total = resp.length; asset_tag = asset.name }

      got : Download
      got = download a.room i.received resp.body.chunks resp.body.fault

      by_temp :
          (c : Result (Unit {0}))
          → Ends (elim c [
            | err e ↦ record { installer = i'; binary = old; result = err e }
            | ok u ↦ after_download sha256_hex a asset i' old got
          ])
      by_temp (err e) = inl (_, refl, refl)
      by_temp (ok u) =
          let (found, answered) = prepare-ok asset resp h in
          after_download-Ends asset resp i' got found answered
            (download-whole a.room i.received resp.body.chunks resp.body.fault)

  -- What is there after an install: what was there before, and the state failed; or such a file,
  -- with the state done if it can be run and the state failed if chmod failed.
  abbrev pub Left : Outcome → Type 0
  Left o =
      ((o.binary ≡ old) × (o.installer.state ≡ failed))
      ⊎ ((content : List ℕ) × FromBuild content
          × (((o.installer.state ≡ done)
                × (o.binary ≡ some (record { content = content; executable = true })))
              ⊎ ((o.installer.state ≡ failed)
                  × (a.chmod ≢ ok tt)
                  × (o.binary ≡ some (record { content = content; executable = false })))))

  with_result-Left : (o : Outcome) → Ends o → Left (with_result o)
  with_result-Left o (inl (e, with_error, kept)) = inl (kept, rw with_error refl)
  with_result-Left o (inr (content, built, inl (worked, there))) =
      inr (content, built, inl (rw worked refl, there))
  with_result-Left o (inr (content, built, inr (e, with_error, no_chmod, there))) =
      inr (content, built, inr (rw with_error refl, no_chmod, there))

  -- An install that starts ends in one of two ways, for any answers: with what was at ManagedPath
  -- before and the state failed; or with the file of a build whose bytes have this platform's
  -- pinned hash, as downloaded or out of its archive, which can be run and the state is done,
  -- unless chmod failed, when it cannot and the state is failed.
  pub install-Left :
      (i : Installer) (o : Outcome) → install sha256_hex platform a i old ≡ some o → Left o
  unfolding install run
  install-Left i o h = elim (Bool-cases (is_busy i.state)) [
    | inl busy ↦ cc (rw busy at h)
    | inr free ↦
        let started : Installer = record i {
          state = downloading;
          error = none;
          received = 0;
          total = 0;
        } in
        let ended : Outcome = fetch sha256_hex a started old (prepare platform a) in
        let same : with_result ended ≡ o = some_inj _ o (rw free at h) in
        rw (sym same) (with_result-Left ended (fetch-Ends started (prepare platform a) refl))
  ]
