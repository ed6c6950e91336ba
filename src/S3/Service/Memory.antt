-- ===== src/S3/Service/Memory.antt =====
-- A service in memory with the laws of S3/Service, for one upload of one key. Its hash is the body
-- with every byte moved out of the way of the quote.
use timberlake.Base.{
  ℕ, ◌+◌, ◌<◌, ◌^◌, ◌≡◌, ◌≢◌, refl, sym, ap, ◌∙◌, false, List, [], ◌∷◌, ◌++◌, flatten, map, Option,
  none, some, arith, length, ◌==◌, if◌then◌else◌,
}
use timberlake.Io.{Text, Error, message, Result, ok, err, Reader, bytes, eq_text}
use timberlake.Io.Readers.{eq_text_refl}
use timberlake.Strings.{trim, trim_left, trim_right, keep_right}
use timberlake.S3.Service.{Service, Laws, Upload, Part, CompletedPart, Stored, Listed, Unmistakable}

abbrev pub encode : List ℕ → Text
encode = map (λ x. x + 100)

encode-injective : (a b : List ℕ) → encode a ≡ encode b → a ≡ b
encode-injective [] [] h = refl
encode-injective [] (y ∷ b) h = cc
encode-injective (x ∷ a) [] h = cc
encode-injective (x ∷ a) (y ∷ b) h = ground (arith, encode-injective a b)

trim_right-encode : (a : List ℕ) → trim_right b'"' (encode a) ≡ encode a
unfolding trim_right keep_right
trim_right-encode [] = refl
trim_right-encode (x ∷ []) = ground arith
trim_right-encode (x ∷ y ∷ a) = rw (trim_right-encode (y ∷ a))

trim-encode : (a : List ℕ) → trim b'"' (encode a) ≡ encode a
unfolding trim trim_left
trim-encode [] = trim_right-encode []
trim-encode (x ∷ a) =
    let no_quote : ((x + 100) == b'"') ≡ false = ground arith in
    rw no_quote (trim_right-encode (x ∷ a))

pub record Memory : Type 0 where
  pub uploads : List Upload
  pub parts : ℕ → Option (List ℕ)
  pub object : Option (List ℕ)

abbrev pub entry_of : ℕ → Option (List ℕ) → Part
entry_of n none = record { part_number = none; etag = none; size = none }
entry_of n (some b) = record {
  part_number = some n;
  etag = some (encode b);
  size = some (length b);
}

-- The parts that a completion names, if they are all there.
abbrev pub collect : (ℕ → Option (List ℕ)) → List CompletedPart → Option (List ℕ)
collect parts [] = some []
collect parts (none ∷ cs) = none
collect parts (some (n, e) ∷ cs) = elim (parts n) [
  | none ↦ none
  | some b ↦ elim (collect parts cs) [
    | none ↦ none
    | some rest ↦ if eq_text (encode b) e then some (b ++ rest) else none
  ]
]

abbrev pub complete_with : Memory → Option (List ℕ) → Memory × Result (Unit {0})
complete_with σ none = (σ, err (message "InvalidPart"))
complete_with σ (some b) = (record σ { object = some b }, ok tt)

abbrev pub upload_with : Memory → Reader → Option Error → Memory × (ℕ × Result (Unit {0}))
upload_with σ r none = (record σ { object = some (bytes r) }, (length (bytes r), ok tt))
upload_with σ r (some e) = (σ, (0, err e))

abbrev pub memory : Service
memory = record {
  State = Memory;
  list_uploads = λ σ prefix. ok σ.uploads;
  list_parts = λ σ key uid. ok (entry_of 1 (σ.parts 1) ∷ entry_of 2 (σ.parts 2) ∷ []);
  put_part = λ σ key uid n b.
      (record σ { parts = λ m. if n == m then some b else σ.parts m }, ok (some (encode b)));
  complete = λ σ key uid cs. complete_with σ (collect σ.parts cs);
  abort = λ σ key uid. (record σ { parts = λ n. none }, ok tt);
  upload = λ σ key r n. upload_with σ r r.fault;
  md5_hex = encode;
}

abbrev pub stored_of : Memory → ℕ → Option (List ℕ × Text)
stored_of σ n = elim (σ.parts n) [ none ↦ none | some b ↦ some (b, encode b) ]

pub collect-Stored :
    (σ : Memory) (cs : List CompletedPart) (bodies : List (List ℕ))
    → Stored (stored_of σ) cs bodies
    → collect σ.parts cs ≡ some (flatten bodies)
unfolding flatten
collect-Stored σ [] [] h = refl
collect-Stored σ [] (b ∷ bodies) h = absurd h
collect-Stored σ (none ∷ cs) bodies h = absurd h
collect-Stored σ (some (n, e) ∷ cs) [] h = absurd h
collect-Stored σ (some (n, e) ∷ cs) (b ∷ bodies) h =
    ground (arith, collect-Stored σ cs bodies h.1, eq_text_refl (encode b))

stored_at :
    (σ : Memory) (n : ℕ) (b : List ℕ) → σ.parts n ≡ some b → stored_of σ n ≡ some (b, encode b)
stored_at σ n b h = ground arith

stored_inv :
    (σ : Memory) (n : ℕ) (b : List ℕ) (e : Text) → stored_of σ n ≡ some (b, e) → e ≡ encode b
stored_inv σ n b e h = ground arith

entry-Listed :
    (σ : Memory) (n m : ℕ) (e : Text) (z : ℕ) (o : Option (List ℕ))
    → n < 2 ^ 32
    → σ.parts n ≡ o
    → (entry_of n o).part_number ≡ some m
    → (entry_of n o).etag ≡ some e
    → (b : List ℕ) × (m < 2 ^ 32) × (stored_of σ m ≡ some (b, e))
entry-Listed σ n m e z none h at_n p q = cc
entry-Listed σ n m e z (some b) h at_n p q =
    let m_n : m ≡ n = ground arith in
    let e_b : e ≡ encode b = ground arith in (b, rw m_n h, rw (m_n, e_b) (stored_at σ n b at_n))

pub complete_inv :
    (σ σ' : Memory) (o : Option (List ℕ)) → complete_with σ o ≡ (σ', ok tt) → σ'.object ≡ o
complete_inv σ σ' none h = ground arith
complete_inv σ σ' (some b) h = ground arith

pub upload_inv :
    (σ σ' : Memory) (r : Reader) (m : ℕ) (f : Option Error)
    → upload_with σ r f ≡ (σ', (m, ok tt))
    → (f ≡ none) × (σ'.object ≡ some (bytes r))
upload_inv σ σ' r m none h = ground arith
upload_inv σ σ' r m (some e) h = ground arith

pub list_parts_inv :
    (σ : Memory) (ps : List Part)
    → ◌≡◌ {A = Result (List Part)}
        (ok (entry_of 1 (σ.parts 1) ∷ entry_of 2 (σ.parts 2) ∷ []))
        (ok ps)
    → Listed (stored_of σ) ps
list_parts_inv σ [] h = absurd (ground arith)
list_parts_inv σ (p ∷ []) h = absurd (ground arith)
list_parts_inv σ (p ∷ q ∷ r ∷ ps) h = absurd (ground arith)
list_parts_inv σ (p ∷ q ∷ []) h =
    let first : entry_of 1 (σ.parts 1) ≡ p = cc in
    let second : entry_of 2 (σ.parts 2) ≡ q = cc in
    (
      (λ n e z a b c.
          entry-Listed σ 1 n e z (σ.parts 1) (omega arith) refl (rw (← first) at a)
            (rw (← first) at b)),
      (
        (λ n e z a b c.
            entry-Listed σ 2 n e z (σ.parts 2) (omega arith) refl (rw (← second) at a)
              (rw (← second) at b)),
        tt,
      ),
    )

pub put_part_inv :
    (σ σ' : Memory) (n m : ℕ) (b : List ℕ) (e : Text)
    → ◌≡◌ {A = Memory × Result (Option Text)}
        (record σ { parts = λ k. if n == k then some b else σ.parts k }, ok (some (encode b)))
        (σ', ok (some e))
    → (σ'.parts m ≡ (if n == m then some b else σ.parts m)) × (e ≡ encode b)
put_part_inv σ σ' n m b e h = (ap (λ t. t.0.parts m) (sym h), ground arith)

pub put_self_inv :
    (σ σ' : Memory) (n : ℕ) (b : List ℕ) (e : Text)
    → (σ'.parts n ≡ (if n == n then some b else σ.parts n)) × (e ≡ encode b)
    → stored_of σ' n ≡ some (b, e)
put_self_inv σ σ' n b e h = ground arith

pub put_ne_inv :
    (σ σ' : Memory) (n m : ℕ) (b : List ℕ)
    → σ'.parts m ≡ (if n == m then some b else σ.parts m)
    → n ≢ m
    → stored_of σ' m ≡ stored_of σ m
put_ne_inv σ σ' n m b h ne = ground arith

pub etag_inv :
    (σ : Memory) (n : ℕ) (b : List ℕ) (e : Text)
    → stored_of σ n ≡ some (b, e)
    → trim b'"' e ≡ encode b
etag_inv σ n b e st = ap (trim b'"') (stored_inv σ n b e st) ∙ trim-encode b

abbrev pub memory_laws : Laws memory
memory_laws = record {
  object = λ σ key. σ.object;
  stored = λ σ uid. stored_of σ;
  list_parts_lem = λ σ key uid ps h. list_parts_inv σ ps h;
  put_part_self = λ σ σ' key uid n b e h. put_self_inv σ σ' n b e (put_part_inv σ σ' n n b e h);
  put_part_ne =
      λ σ σ' key uid n b e m h ne. put_ne_inv σ σ' n m b (put_part_inv σ σ' n m b e h).0 ne;
  etag_lem = λ σ uid n b e st. etag_inv σ n b e st;
  complete_lem = λ σ σ' key uid cs bodies h st.
      complete_inv σ σ' (collect σ.parts cs) h ∙ collect-Stored σ cs bodies st;
  upload_lem = λ σ σ' key r n m h. upload_inv σ σ' r m r.fault h;
}

pub memory-Unmistakable : (part : ℕ → List ℕ) → Unmistakable memory memory_laws part
memory-Unmistakable part σ uid n b e i st match = sym (encode-injective (part i) b match)
