-- ===== src/Keys/Defs.antt =====
-- key.go: Key with its Vary section, its text, and the fields of Vary; and the requests that carry
-- one.
--
-- A map of headers is visited in an order that Go leaves open; varyFieldKey sorts what it finds.
use httpcache_kit.Common.{
  ℕ, Bool, List, [], ◌∷◌, ◌++◌, codes, Text, to_lower, text_key, contains, if◌then◌else◌,
}
use httpcache_kit.Http.Headers.{Headers, names_like, sort, values_of, join, is_empty}
use httpcache_kit.Http.Names.{canonical_header_key, trim_space, split}
use httpcache_kit.Http.Platform.{Platform, Url}
use httpcache_kit.Directives.Defs.{CacheControl}

-- http.Request, as far as the cache reads it.
pub record Request : Type 0 where
  pub method : Text
  pub header : Headers
  pub proto_major : ℕ
  pub proto_minor : ℕ

pub record Key : Type 0 where
  pub method : Text
  pub u : Url
  pub vary_entries : List Text

pub record CacheRequest : Type 0 where
  pub request : Request
  pub open request use *
  pub key : Key
  pub time : ℕ
  pub cache_control : CacheControl
  pub discovery_key : Text
  pub served_key : Text

unfoldable pub for_method : Text → Key → Key
for_method method k = record k { method = method }

unfoldable pub non_empty : List Text → List Text
non_empty [] = []
non_empty (s ∷ ss) = let rest = non_empty ss in if is_empty s then rest else s ∷ rest

unfoldable pub field_names : List Text → List Text
field_names [] = []
field_names (part ∷ parts) = canonical_header_key (trim_space part) ∷ field_names parts

unfoldable pub parse_vary : Text → List Text
unfolding non_empty field_names split
parse_vary vary_header = non_empty (field_names (split 44 vary_header))

unfoldable pub vary_wildcard : Text → Bool
unfolding parse_vary contains codes
vary_wildcard vary_header = contains (codes "*") (parse_vary vary_header)

abbrev pub vary_separator : ℕ
vary_separator = 31

-- "\x1fHTTPCACHE-VARY/2\x1f"
unfoldable pub vary_key_namespace : Text
unfolding codes
vary_key_namespace = vary_separator ∷ (codes "HTTPCACHE-VARY/2" ++ (vary_separator ∷ []))

unfoldable pub canonical_url : Url → Url
unfolding to_lower
canonical_url u = record u { scheme = to_lower u.scheme; host = to_lower u.host; fragment = [] }

unfoldable pub key_namespace : List Text → Text
unfolding vary_key_namespace
key_namespace [] = []
key_namespace (v ∷ vs) = vary_key_namespace

module _ (P : Platform) where
  unfoldable pub quoted : List Text → List Text
  quoted [] = []
  quoted (value ∷ values) = P.quote value ∷ quoted values

  -- A field's lines, with their boundaries; a missing field differs from an empty one.
  unfoldable pub vary_field_key : Headers → Text → Text
  unfolding names_like sort values_of join codes quoted
  vary_field_key header name = elim (names_like name header) [
    | [] ↦ codes "missing"
    | _ ∷ _ ↦
        91
        ∷ (join (44 ∷ []) (quoted (values_of (sort (names_like name header)) header)) ++ (93 ∷ []))
  ]

  unfoldable pub vary_entries_of : List Text → Headers → List Text
  unfolding vary_field_key codes
  vary_entries_of [] header = []
  vary_entries_of (name ∷ names) header =
      (name ++ (codes "=" ++ vary_field_key header name)) ∷ vary_entries_of names header

  unfoldable pub vary : Text → Headers → Key → Key
  unfolding vary_entries_of parse_vary
  vary vary_header header k = record k {
    vary_entries = k.vary_entries ++ vary_entries_of (parse_vary vary_header) header;
  }

  unfoldable pub vary_section : List Text → Text
  vary_section [] = []
  vary_section (v ∷ vs) = vary_separator ∷ (P.quote v ++ vary_section vs)

  -- Key.String
  unfoldable pub key_string : Key → Text
  unfolding canonical_url vary_section key_namespace
  key_string k =
      key_namespace k.vary_entries
      ++ (k.method ++ (58 ∷ (P.print_url (canonical_url k.u) ++ vary_section k.vary_entries)))
