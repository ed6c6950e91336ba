-- ===== src/Sizes.antt =====
-- Go's map[string]int64, as the listings and the destinations use it: paths with their sizes.
pub mod Laws
use timberlake.Base.{ℕ, Bool, true, false, List, [], ◌∷◌, if◌then◌else◌}
use timberlake.Io.{Text, eq_text}

-- found[rel] = size
unfoldable pub put_size : Text → ℕ → List (Text × ℕ) → List (Text × ℕ)
put_size rel n [] = (rel, n) ∷ []
put_size rel n ((k, m) ∷ found) =
    if eq_text k rel then (k, n) ∷ found else (k, m) ∷ put_size rel n found

-- known[path], with the zero value for a missing key.
unfoldable pub known_size : Text → List (Text × ℕ) → Bool × ℕ
known_size path [] = (false, 0)
known_size path ((p, n) ∷ known) = if eq_text p path then (true, n) else known_size path known
