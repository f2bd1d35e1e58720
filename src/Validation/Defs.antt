-- ===== src/Validation/Defs.antt =====
-- validator.go: conditionalRequest, applyValidationResponse and what they read of headers;
-- conditional_response.go: retryOriginalPreconditions, copyValidationTrailers, and the choice of
-- the key that a validation fences.
--
-- The clock is read once for a validation's end. http.Header methods bring a name to its canonical
-- spelling, which the names below have.
use httpcache_kit.Common.{
  ℕ, ℤ, Bool, true, false, ◌&&◌, ◌||◌, not, Option, none, some, List, [], ◌∷◌, ◌++◌, Text, codes,
  text_key, nat_eq, lookup, insert, delete, equal_fold, ◌==◌, if◌then◌else◌,
}
use httpcache_kit.Http.Headers.{Headers, get, is_empty, sort, combined_header_values}
use httpcache_kit.Http.Names.{canonical_header_key}
use httpcache_kit.Http.Platform.{Platform}
use httpcache_kit.Keys.Defs.{CacheRequest, Request, key_string, parse_vary, vary_field_key}
use httpcache_kit.Policy.Resource.{Resource}
use httpcache_kit.Policy.Storage.{corrected_age}
use httpcache_kit.Validation.Warnings.{validated_warning_values}

-- time.Time.Format(http.TimeFormat), and a duration's seconds printed by "%.f".
pub record Printer : Type 0 where
  pub print_time : ℕ → Text
  pub print_seconds : ℤ → Text

-- h.Values
unfoldable pub values : Text → Headers → List Text
values name h = elim (lookup name h) [ none ↦ [] | some lines ↦ lines ]

unfoldable pub names : Headers → List Text
names [] = []
names ((name, lines) ∷ h) = name ∷ names h

unfoldable pub gather : List Text → Headers → Headers → Headers
gather [] h canonical = canonical
gather (name ∷ rest) h canonical =
    let key = canonical_header_key name in
    gather rest h (insert key (values key canonical ++ values name h) canonical)

unfoldable pub canonical_validation_headers : Headers → Headers
canonical_validation_headers h = gather (sort (names h)) h []

abbrev pub validation_headers : List Text
unfolding codes
validation_headers =
    codes "Etag"
    ∷ codes "Content-Md5"
    ∷ codes "Last-Modified"
    ∷ codes "Content-Length"
    ∷ codes "Content-Encoding"
    ∷ []

-- A field that the second header gives is equal in the first; a coding may differ in case.
unfoldable pub is_equal_at : Text → Headers → Headers → Bool
is_equal_at name h1 h2 =
    is_empty (get name h2)
    || (get name h1 == get name h2)
    || (name == codes "Content-Encoding") && equal_fold (get name h1) (get name h2)

unfoldable pub headers_equal_at : List Text → Headers → Headers → Bool
headers_equal_at [] h1 h2 = true
headers_equal_at (name ∷ rest) h1 h2 = is_equal_at name h1 h2 && headers_equal_at rest h1 h2

unfoldable pub headers_equal : Headers → Headers → Bool
headers_equal h1 h2 = headers_equal_at validation_headers h1 h2

-- Every field of the update but Warning replaces the stored one.
unfoldable pub replace_all : Headers → Headers → Headers
replace_all [] merged = merged
replace_all ((name, lines) ∷ update) merged =
    replace_all update (if name == codes "Warning" then merged else insert name lines merged)

unfoldable pub set_warnings : List Text → Headers → Headers
set_warnings [] h = delete (codes "Warning") h
set_warnings (w ∷ ws) h = insert (codes "Warning") (w ∷ ws) h

-- The stored header with the fields of a validation.
unfoldable pub merge : Printer → ℕ → Headers → Headers → Headers
merge Pr now stored update =
    let merged = replace_all update (delete (codes "Age") stored) in
    let warned =
      set_warnings
        (validated_warning_values
          (values (codes "Warning") stored ++ values (codes "Warning") update))
        merged in
    if is_empty (get (codes "Date") update)
    then insert (codes "Date") (Pr.print_time now ∷ []) warned
    else warned

unfoldable pub set_age : Printer → Option ℤ → Headers → Headers
set_age Pr none h = h
set_age Pr (some age) h = insert (codes "Age") (Pr.print_seconds age ∷ []) h

-- applyValidationResponse; `start` is the time before the request was sent, `ended` whether the
-- request's context is over.
unfoldable pub apply_validation_response :
    Platform → Printer → ℕ → Bool → Resource → ℕ → Headers → ℕ → Bool × Resource
apply_validation_response P Pr now ended res status header start =
    let stored = canonical_validation_headers res.header in
    let update = canonical_validation_headers header in
    let merged = merge Pr now stored update in
    let aged = set_age Pr (corrected_age P now merged start now) merged in
    if ended || not (status == 304) || not (headers_equal stored update) then (false, res) else (
      true,
      record res {
        header = insert (codes "Proxy-Date") (Pr.print_time now ∷ []) aged;
        cc = none;
        request_time = start;
      },
    )

abbrev pub is_client_validator : Text → Bool
unfolding codes
is_client_validator field = (field == codes "If-None-Match") || (field == codes "If-Modified-Since")

unfoldable pub any_client_validator : List Text → Bool
any_client_validator [] = false
any_client_validator (field ∷ fields) = is_client_validator field || any_client_validator fields

unfoldable pub vary_uses_client_validators : Text → Bool
vary_uses_client_validators vary = any_client_validator (parse_vary vary)

-- The outgoing request, unless there is nothing to ask with.
unfoldable pub conditional_request : Request → Resource → Option Request
conditional_request r res =
    let headers = canonical_validation_headers res.header in
    let etag = get (codes "Etag") headers in
    let modified = get (codes "Last-Modified") headers in
    if vary_uses_client_validators (combined_header_values res.header (codes "Vary"))
    then none
    else if not (is_empty etag)
    then some (record r { header = insert (codes "If-None-Match") (etag ∷ []) r.header })
    else if not (is_empty modified)
    then some (record r { header = insert (codes "If-Modified-Since") (modified ∷ []) r.header })
    else none

unfoldable pub any_changed : Platform → List Text → Headers → Headers → Bool
any_changed P [] original validation = false
any_changed P (field ∷ fields) original validation =
    is_client_validator field
      && not (vary_field_key P original field == vary_field_key P validation field)
    || any_changed P fields original validation

unfoldable pub vary_changed_client_validators : Platform → Text → Request → Request → Bool
vary_changed_client_validators P vary original validation =
    any_changed P (parse_vary vary) original.header validation.header

unfoldable pub retry_original_preconditions : ℕ → Request → Request → Bool
retry_original_preconditions status original validation =
    ((status == 416) || (status == 412))
    && not (
        is_empty (get (codes "If-None-Match") original.header)
        && is_empty (get (codes "If-Modified-Since") original.header))
    && (not (
          combined_header_values original.header (codes "If-None-Match")
          == combined_header_values validation.header (codes "If-None-Match"))
        || not (
            combined_header_values original.header (codes "If-Modified-Since")
            == combined_header_values validation.header (codes "If-Modified-Since")))

unfoldable pub validation_resource_key : Platform → CacheRequest → Text
validation_resource_key P req =
    if not (is_empty req.served_key)
    then req.served_key
    else if not (is_empty req.discovery_key)
    then req.discovery_key
    else key_string P req.key
