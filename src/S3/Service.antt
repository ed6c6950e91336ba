-- ===== src/S3/Service.antt =====
-- The S3 service and the MD5 hash, which transfer/s3backend calls through the AWS SDK: a parameter.
-- `Service` has the calls with their state; `Laws` is what S3 documents of them, over two views of
-- the state, the finished objects and the stored parts of an upload.
pub mod Memory
use timberlake.Base.{ℕ, ◌<◌, ◌^◌, ◌≡◌, ◌≢◌, List, [], ◌∷◌, flatten, Option, none, some}
use timberlake.Strings.{trim}
use timberlake.Io.{Text, Result, ok, Reader, bytes}

-- An entry of ListMultipartUploads.
pub record Upload : Type 0 where
  pub key : Option Text
  pub upload_id : Option Text

-- An entry of ListParts: int32 and int64 values as bit patterns, each possibly nil.
pub record Part : Type 0 where
  pub part_number : Option ℕ
  pub etag : Option Text
  pub size : Option ℕ

-- types.CompletedPart, as the uploads fill it: `none` is the zero value.
abbrev pub CompletedPart : Type 0
CompletedPart = Option (ℕ × Text)

pub record Service : Type 1 where
  pub State : Type 0
  pub list_uploads : State → Text → Result (List Upload)
  pub list_parts : State → Text → Text → Result (List Part)
  pub put_part : State → Text → Text → ℕ → List ℕ → State × Result (Option Text)
  pub complete : State → Text → Text → List CompletedPart → State × Result (Unit {0})
  pub abort : State → Text → Text → State × Result (Unit {0})
  -- The managed uploader: key, body, content length; with the number of bytes read from the body.
  pub upload : State → Text → Reader → ℕ → State × (ℕ × Result (Unit {0}))
  pub md5_hex : List ℕ → Text

-- The parts that a completion names, with the contents stored under them.
abbrev pub Stored : (ℕ → Option (List ℕ × Text)) → List CompletedPart → List (List ℕ) → Type 0
Stored parts [] [] = Unit
Stored parts (none ∷ cs) bodies = ⊥
Stored parts (some (n, e) ∷ cs) [] = ⊥
Stored parts (some (n, e) ∷ cs) (b ∷ bodies) = (parts n ≡ some (b, e)) × Stored parts cs bodies
Stored parts [] (b ∷ bodies) = ⊥

-- What ListParts says of a part holds of the stored part.
abbrev pub Listed : (ℕ → Option (List ℕ × Text)) → List Part → Type 0
Listed parts [] = Unit
Listed parts (p ∷ ps) =
    ((n : ℕ) (e : Text) (z : ℕ)
      → p.part_number ≡ some n
      → p.etag ≡ some e
      → p.size ≡ some z
      → (b : List ℕ) × (n < 2 ^ 32) × (parts n ≡ some (b, e)))
    × Listed parts ps

module _ (svc : Service) where
  open svc use {State, list_parts, put_part, complete, upload, md5_hex}

  pub record Laws : Type 0 where
    pub object : State → Text → Option (List ℕ)
    pub stored : State → Text → ℕ → Option (List ℕ × Text)
    pub list_parts_lem :
        (σ : State) (key uid : Text) (ps : List Part)
        → list_parts σ key uid ≡ ok ps
        → Listed (stored σ uid) ps
    pub put_part_self :
        (σ σ' : State) (key uid : Text) (n : ℕ) (body : List ℕ) (e : Text)
        → put_part σ key uid n body ≡ (σ', ok (some e))
        → stored σ' uid n ≡ some (body, e)
    pub put_part_ne :
        (σ σ' : State) (key uid : Text) (n : ℕ) (body : List ℕ) (e : Text) (m : ℕ)
        → put_part σ key uid n body ≡ (σ', ok (some e))
        → n ≢ m
        → stored σ' uid m ≡ stored σ uid m
    -- The ETag of a part is its MD5, in quotes.
    pub etag_lem :
        (σ : State) (uid : Text) (n : ℕ) (body : List ℕ) (e : Text)
        → stored σ uid n ≡ some (body, e)
        → trim b'"' e ≡ md5_hex body
    pub complete_lem :
        (σ σ' : State) (key uid : Text) (cs : List CompletedPart) (bodies : List (List ℕ))
        → complete σ key uid cs ≡ (σ', ok tt)
        → Stored (stored σ uid) cs bodies
        → object σ' key ≡ some (flatten bodies)
    pub upload_lem :
        (σ σ' : State) (key : Text) (r : Reader) (n m : ℕ)
        → upload σ key r n ≡ (σ', (m, ok tt))
        → (r.fault ≡ none) × (object σ' key ≡ some (bytes r))

  -- No stored part has the MD5 of a part of the file without being that part.
  abbrev pub Unmistakable : Laws → (ℕ → List ℕ) → Type 0
  Unmistakable laws part =
      (σ : State) (uid : Text) (n : ℕ) (body : List ℕ) (e : Text) (i : ℕ)
      → laws.stored σ uid n ≡ some (body, e)
      → md5_hex (part i) ≡ md5_hex body
      → body ≡ part i
