-- ===== src/Http/Platform.antt =====
-- net/url, net/http, strconv and time, as far as the code calls them without depending on how they
-- do it: their parsers and printers.
use httpcache_kit.Common.{ℕ, ℤ, Bool, Option, Text}

pub record Url : Type 0 where
  pub scheme : Text
  pub user : Text
  pub host : Text
  pub path : Text
  pub raw_path : Text
  pub raw_query : Text
  pub force_query : Bool
  pub fragment : Text

pub record Platform : Type 0 where
  -- http.ParseTime, in nanoseconds since Go's zero time
  pub parse_time : Text → Option ℕ
  -- time.ParseDuration
  pub parse_duration : Text → Option ℤ
  -- strconv.Atoi
  pub atoi : Text → Option ℤ
  -- strconv.Quote
  pub quote : Text → Text
  -- url.URL.String
  pub print_url : Url → Text
