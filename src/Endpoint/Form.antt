-- ===== src/Endpoint/Form.antt =====
-- The endpoints that ParseEndpoint returns (Endpoint).
use timberlake.Base.{ℕ, ◌≡◌, ◌≢◌, refl, inl, inr, false, [], ◌∷◌, Bool-cases, ◌==◌}
use timberlake.Io.{Text, codes, Result, ok, context}
use timberlake.Io.Readers.{>>=-inv, ok_inj}
use timberlake.Strings.{has_prefix, trim_prefix, trim, trim_left, trim_right, keep_right}
use timberlake.Endpoint.{
  Url, Scheme, local, s3, sftp, Endpoint, or_default, s3_endpoint, sftp_endpoint, parse_endpoint,
}

or_default-ne : (d v : Text) → d ≢ [] → or_default d v ≢ []
unfolding or_default
or_default-ne d [] h = h
or_default-ne d (c ∷ cs) h = λ e. cc

trim_right-head :
    (c x : ℕ) (s : Text) → (x == c) ≡ false → has_prefix (c ∷ []) (trim_right c (x ∷ s)) ≡ false
unfolding trim_right has_prefix
trim_right-head c x s h = by_rest (trim_right c s)
  where
    by_rest : (r : Text) → has_prefix (c ∷ []) (keep_right c x r) ≡ false
    by_rest [] = unfold keep_right in rw h (rw h refl)
    by_rest (y ∷ r) = unfold keep_right in rw h refl

trim-head : (c : ℕ) (s : Text) → has_prefix (c ∷ []) (trim c s) ≡ false
unfolding trim trim_left
trim-head c [] = unfold trim_right has_prefix in refl
trim-head c (x ∷ s) = elim (Bool-cases (x == c)) [
  | inl e ↦ rw e (trim-head c s)
  | inr n ↦ rw n (trim_right-head c x s n)
]

-- What the backends rely on, for each scheme: a bucket, and a prefix with no slash in front; a host,
-- a port and a path; or the root, which is the text but for file:// before it.
abbrev pub WellFormed : Scheme → Endpoint → Type 0
WellFormed s3 ep = (ep.bucket ≢ []) × (has_prefix (codes "/") ep.prefix ≡ false)
WellFormed sftp ep = (ep.host ≢ []) × (ep.port ≢ []) × (ep.path ≢ [])
WellFormed local ep =
    (has_prefix (codes "s3://") ep.raw ≡ false)
    × (has_prefix (codes "sftp://") ep.raw ≡ false)
    × (ep.root ≡ trim_prefix (codes "file://") ep.raw)

s3_endpoint-WellFormed :
    (raw host : Text) (u : Url) (ep : Endpoint)
    → s3_endpoint raw u host ≡ ok ep
    → WellFormed ep.scheme ep × (ep.raw ≡ raw)
unfolding s3_endpoint
s3_endpoint-WellFormed raw [] u ep h = cc
s3_endpoint-WellFormed raw (c ∷ cs) u ep h =
    rw (← ok_inj _ ep h) (((λ e. cc), trim-head b'/' u.path), refl)

sftp_endpoint-WellFormed :
    (raw host : Text) (u : Url) (ep : Endpoint)
    → sftp_endpoint raw u host ≡ ok ep
    → WellFormed ep.scheme ep × (ep.raw ≡ raw)
unfolding sftp_endpoint
sftp_endpoint-WellFormed raw [] u ep h = cc
sftp_endpoint-WellFormed raw (c ∷ cs) u ep h = rw (← ok_inj _ ep h) (
  (
    (λ e. cc),
    or_default-ne (codes "22") u.port (λ e. cc),
    or_default-ne (codes ".") u.path (λ e. cc),
  ),
  refl,
)

-- Whatever url.Parse answers: an endpoint that ParseEndpoint returns keeps its text, and has what
-- its scheme needs. For s3 a bucket that is not empty and a prefix that does not start with a slash;
-- for sftp a host, a port and a path that are not empty; a local one has neither of these schemes in
-- its text and has the text as its root, without file:// at its start.
pub parse_endpoint-WellFormed :
    (parse_url : Text → Result Url) (raw : Text) (ep : Endpoint)
    → parse_endpoint parse_url raw ≡ ok ep
    → WellFormed ep.scheme ep × (ep.raw ≡ raw)
unfolding parse_endpoint
parse_endpoint-WellFormed parse_url raw ep h = elim (Bool-cases (has_prefix (codes "s3://") raw)) [
  | inl is_s3 ↦
      let (u, parsed, made) =
        >>=-inv (context "invalid s3 URI" (parse_url raw)) _ (rw is_s3 at h) in
      s3_endpoint-WellFormed raw u.host u ep made
  | inr no_s3 ↦ elim (Bool-cases (has_prefix (codes "sftp://") raw)) [
    | inl is_sftp ↦
        let (u, parsed, made) =
          >>=-inv (context "invalid sftp URI" (parse_url raw)) _ (rw (no_s3, is_sftp) at h) in
        sftp_endpoint-WellFormed raw u.hostname u ep made
    | inr no_sftp ↦ rw (← ok_inj _ ep (rw (no_s3, no_sftp) at h)) ((no_s3, no_sftp, refl), refl)
  ]
]
