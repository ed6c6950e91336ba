-- ===== src/Tests/Config.antt =====
-- A file of two settings over flags, destinations and endpoints.
use timberlake.Base.{◌≡◌, refl, [], ◌∷◌, ◌++◌, none}
use timberlake.Io.{Text, codes, Result, ok}
use timberlake.Strings.{has_prefix, trim_prefix, cut, trim, trim_left, trim_right, keep_right}
use timberlake.Strings.Laws.{has_byte}
use timberlake.Config.{parse_destination}
use timberlake.Config.Destination.{parse_destination-roundtrip}
use timberlake.Endpoint.{Url, parse_endpoint, Endpoint, s3, no_endpoint}
use timberlake.Endpoint.Form.{WellFormed, parse_endpoint-WellFormed}

parse_destination-roundtrip_example :
    (parse_destination (codes "s3://" ++ (codes "b" ++ b'/' ∷ codes "p"))
      ≡ ok (codes "b", codes "p"))
    × (parse_destination (codes "s3://" ++ codes "b") ≡ ok (codes "b", []))
unfolding has_byte has_prefix
parse_destination-roundtrip_example = parse_destination-roundtrip b'b' [] (codes "p") refl refl

parse_bp : parse_destination (codes "s3://b/p") ≡ ok (codes "b", codes "p")
unfolding parse_destination has_prefix trim_prefix cut
parse_bp = refl

-- url.Parse of the one text.
abbrev bucket_url : Text → Result Url
bucket_url s =
    ok (record {
      host = codes "b";
      hostname = codes "b";
      port = [];
      path = codes "/p/";
      user = none;
    })

abbrev bucket_p : Endpoint
bucket_p = record (no_endpoint s3 (codes "s3://b/p/")) { bucket = codes "b"; prefix = codes "p" }

parse_bucket_p : parse_endpoint bucket_url (codes "s3://b/p/") ≡ ok bucket_p
unfolding parse_endpoint has_prefix trim trim_left trim_right keep_right
parse_bucket_p = refl

parse_endpoint-WellFormed_example : WellFormed s3 bucket_p × (bucket_p.raw ≡ codes "s3://b/p/")
parse_endpoint-WellFormed_example =
    parse_endpoint-WellFormed bucket_url (codes "s3://b/p/") bucket_p parse_bucket_p
