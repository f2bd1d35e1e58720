-- ===== src/Tests/Web.antt =====
-- A platform, requests and responses on which the handler's decisions are tried.
use httpcache_kit.Common.{
  ℕ, ◌+◌, ◌-◌, ◌*◌, ◌^◌, false, Option, none, some, [], ◌∷◌, ◌++◌, Text, codes, ℤ, pos, leb, ◌==◌,
  nat_eq, ◌||◌, if◌then◌else◌,
}
use httpcache_kit.Http.Platform.{Platform, Url}
use httpcache_kit.Http.Headers.{Headers}
use httpcache_kit.Directives.Defs.{CacheControl}
use httpcache_kit.Keys.Defs.{Key, CacheRequest}
use httpcache_kit.Policy.Resource.{Resource}

abbrev pub origin : ℕ
origin = 2 ^ 63

-- A time is one digit, in seconds from the origin.
abbrev parse_time : Text → Option ℕ
parse_time (b ∷ []) = some (origin + (b - 48) * 10 ^ 9)
parse_time _ = none

-- A duration is one digit and a unit.
abbrev parse_duration : Text → Option ℤ
parse_duration (b ∷ unit ∷ []) = some (pos ((b - 48) * 10 ^ 9))
parse_duration _ = none

abbrev atoi : Text → Option ℤ
atoi (b ∷ []) = some (pos (b - 48))
atoi _ = none

-- Quotation marks, backslashes and control bytes are escaped.
unfoldable pub escape : Text → Text
escape [] = []
escape (b ∷ s) = if leb b 31 || b == 34 || b == 92 then 92 ∷ (b + 64) ∷ escape s else b ∷ escape s

abbrev pub platform : Platform
platform = record {
  parse_time = parse_time;
  parse_duration = parse_duration;
  atoi = atoi;
  quote = λ s. 34 ∷ (escape s ++ (34 ∷ []));
  print_url = λ u. u.path;
}

abbrev pub url : Url
unfolding codes
url = record {
  scheme = [];
  user = [];
  host = [];
  path = codes "/a";
  raw_path = [];
  raw_query = [];
  force_query = false;
  fragment = [];
}

abbrev pub key : Key
unfolding codes
key = record { method = codes "GET"; u = url; vary_entries = [] }

abbrev pub request : CacheControl → CacheRequest
unfolding codes
request cc = record {
  request = record { method = codes "GET"; header = []; proto_major = 1; proto_minor = 1 };
  key = key;
  time = origin;
  cache_control = cc;
  discovery_key = [];
  served_key = [];
}

abbrev pub response : Headers → ℕ → ℕ → Resource
response header stored_at handler_stored_at = record {
  header = header;
  status_code = 200;
  cc = none;
  stale = false;
  stored_at = stored_at;
  request_time = 0;
  handler_stored_at = handler_stored_at;
}
