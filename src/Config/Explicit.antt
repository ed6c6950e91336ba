-- ===== src/Config/Explicit.antt =====
-- What ParseS3Cfg leaves of the settings that are there before it reads the file (Config).
use timberlake.Base.{
  ◌≡◌, refl, sym, ap, ◌∙◌, ◌⊎◌, inl, inr, Bool, true, false, List, [], ◌∷◌, Option, none, some,
  arith, Bool-cases,
}
use timberlake.Io.{Text, codes, Error, Result, ok, err}
use timberlake.Strings.{has_prefix, trim_space, to_lower, cut}
use timberlake.Config.{
  AppConfig, Entry, access_entry, secret_entry, host_base, use_https, other_entry, entry_of,
  or_else, endpoint_of, secure_url, says_true, apply_entry, is_comment, apply_parts, apply_line,
  apply_lines, Files, cfg_path, read_cfg, parse_s3cfg,
}

-- The settings apart from those that the file can set.
abbrev pub others : AppConfig → AppConfig
others cfg = record cfg { access_key = []; secret_key = []; endpoint_url = []; use_ssl = false }

-- A value that is there stays.
abbrev pub Stays : Text → Text → Type 0
Stays v v' = (v ≡ []) ⊎ (v' ≡ v)

-- The same of an endpoint, up to its scheme.
abbrev pub StaysSecure : Text → Text → Type 0
StaysSecure v v' = (v ≡ []) ⊎ ((v' ≡ v) ⊎ (v' ≡ secure_url true v))

abbrev pub Respects : AppConfig → AppConfig → Type 0
Respects cfg cfg' =
    Stays cfg.access_key cfg'.access_key
    × Stays cfg.secret_key cfg'.secret_key
    × StaysSecure cfg.endpoint_url cfg'.endpoint_url
    × (others cfg' ≡ others cfg)

Stays-trans : (a b c : Text) → Stays a b → Stays b c → Stays a c
Stays-trans a b c (inl e) q = inl e
Stays-trans a b c (inr e) (inl f) = inl (sym e ∙ f)
Stays-trans a b c (inr e) (inr f) = inr (f ∙ e)

pub or_else-Stays : (v w : Text) → Stays v (or_else v w)
or_else-Stays [] w = inl refl
or_else-Stays (c ∷ cs) w = inr refl

pub or_else-StaysSecure : (v w : Text) → StaysSecure v (or_else v w)
or_else-StaysSecure [] w = inl refl
or_else-StaysSecure (c ∷ cs) w = inr (inl refl)

secure_url-off : (url : Text) → secure_url false url ≡ url
unfolding secure_url
secure_url-off url = ground arith

secure_url_idem : (url : Text) → secure_url true (secure_url true url) ≡ secure_url true url
unfolding secure_url
secure_url_idem url = elim (Bool-cases (has_prefix (codes "http://") url)) [
  | inl h ↦ rw h (unfold has_prefix in refl)
  | inr h ↦ rw (h, h) refl
]

secure_url_empty : (url : Text) → secure_url true url ≡ [] → url ≡ []
unfolding secure_url
secure_url_empty url = elim (Bool-cases (has_prefix (codes "http://") url)) [
  | inl h ↦ rw h (λ e. cc)
  | inr h ↦ rw h (λ e. e)
]

StaysSecure-trans : (a b c : Text) → StaysSecure a b → StaysSecure b c → StaysSecure a c
StaysSecure-trans a b c (inl e) q = inl e
StaysSecure-trans a b c (inr (inl e)) q = rw (← e) q
StaysSecure-trans a b c (inr (inr e)) (inl f) = inl (secure_url_empty a (sym e ∙ f))
StaysSecure-trans a b c (inr (inr e)) (inr (inl f)) = inr (inr (f ∙ e))
StaysSecure-trans a b c (inr (inr e)) (inr (inr f)) =
    inr (inr (f ∙ ap (secure_url true) e ∙ secure_url_idem a))

pub Respects-refl : (cfg : AppConfig) → Respects cfg cfg
Respects-refl cfg = (inr refl, inr refl, inr (inl refl), refl)

pub Respects-trans : (a b c : AppConfig) → Respects a b → Respects b c → Respects a c
Respects-trans a b c (k, s, e, o) (k', s', e', o') = (
  Stays-trans a.access_key b.access_key c.access_key k k',
  Stays-trans a.secret_key b.secret_key c.secret_key s s',
  StaysSecure-trans a.endpoint_url b.endpoint_url c.endpoint_url e e',
  o' ∙ o,
)

secure-StaysSecure : (on : Bool) (url : Text) → StaysSecure url (secure_url on url)
secure-StaysSecure true url = inr (inr refl)
secure-StaysSecure false url = inr (inl (secure_url-off url))

apply_entry-Respects :
    (cfg : AppConfig) (k : Entry) (val : Text) → Respects cfg (apply_entry cfg k val)
unfolding apply_entry
apply_entry-Respects cfg access_entry val =
    (or_else-Stays cfg.access_key val, inr refl, inr (inl refl), refl)
apply_entry-Respects cfg secret_entry val =
    (inr refl, or_else-Stays cfg.secret_key val, inr (inl refl), refl)
apply_entry-Respects cfg host_base val =
    (inr refl, inr refl, or_else-StaysSecure cfg.endpoint_url (endpoint_of cfg.use_ssl val), refl)
apply_entry-Respects cfg use_https val =
    (inr refl, inr refl, secure-StaysSecure (says_true (to_lower val)) cfg.endpoint_url, refl)
apply_entry-Respects cfg other_entry val = Respects-refl cfg

apply_parts-Respects :
    (cfg : AppConfig) (parts : Option (Text × Text)) → Respects cfg (apply_parts cfg parts)
unfolding apply_parts
apply_parts-Respects cfg none = Respects-refl cfg
apply_parts-Respects cfg (some (key, val)) =
    apply_entry-Respects cfg (entry_of (to_lower (trim_space key))) (trim_space val)

apply_line-Respects : (cfg : AppConfig) (line : Text) → Respects cfg (apply_line cfg line)
unfolding apply_line
apply_line-Respects cfg line = elim (Bool-cases (is_comment line)) [
  | inl c ↦ rw c (Respects-refl cfg)
  | inr c ↦ rw c (apply_parts-Respects cfg (cut b'=' line))
]

apply_lines-Respects : (cfg : AppConfig) (lines : List Text) → Respects cfg (apply_lines cfg lines)
unfolding apply_lines
apply_lines-Respects cfg [] = Respects-refl cfg
apply_lines-Respects cfg (line ∷ lines) =
    let cfg' = apply_line cfg (trim_space line) in
    Respects-trans cfg cfg' (apply_lines cfg' lines) (apply_line-Respects cfg (trim_space line))
      (apply_lines-Respects cfg' lines)

-- Whatever the file says and however reading it ends: an access key, a secret key and an endpoint
-- that are set before stay as they are, but for http:// at the start of the endpoint, which may
-- become https://; and every setting but these three and UseSSL stays as it is.
pub parse_s3cfg-Respects :
    (fs : Files) (path : Text) (cfg : AppConfig) → Respects cfg (parse_s3cfg fs path cfg).0
unfolding parse_s3cfg
parse_s3cfg-Respects fs path cfg = by_answer (fs.open_lines (cfg_path fs path))
  where
    by_answer : (r : Result (List Text × Option Error)) → Respects cfg (read_cfg cfg r).0
    by_answer (err e) = unfold read_cfg in Respects-refl cfg
    by_answer (ok (lines, none)) = unfold read_cfg in apply_lines-Respects cfg lines
    by_answer (ok (lines, some e)) = unfold read_cfg in apply_lines-Respects cfg lines
