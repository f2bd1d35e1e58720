-- ===== src/Directives/Defs.antt =====
-- cachecontrol.go: CacheControl with its reads and Add, ParseCacheControl and String.
--
-- `%q` and time.ParseDuration are the platform's. The parser never reports an error.
use httpcache_kit.Common.{
  ℕ, zero, suc, Bool, true, false, ◌&&◌, ◌||◌, Option, none, some, List, [], ◌∷◌, ◌++◌, Map, lookup,
  insert, nat_eq, text_key, Text, codes, text_ltb, to_lower, equal_fold, ◌==◌, contains, is_some,
  length, ℤ, if◌then◌else◌,
}
use httpcache_kit.Http.Headers.{Headers, is_empty, sort, combined_header_values}
use httpcache_kit.Http.Platform.{Platform}

abbrev pub CacheControl : Type 0
CacheControl = Map Text (List Text)

-- The least key that is spelled like the given one, but for case; the empty text is none.
unfoldable pub fold_match : Text → CacheControl → Text → Text
unfolding equal_fold text_ltb
fold_match key [] found = found
fold_match key ((candidate, values) ∷ cc) found = fold_match key cc (
    if equal_fold candidate key && (is_empty found || text_ltb candidate found)
    then candidate
    else found)

unfoldable pub lookup_key : Text → CacheControl → Option Text
unfolding fold_match to_lower
lookup_key key cc =
    if is_some (lookup (to_lower key) cc)
    then some (to_lower key)
    else if is_some (lookup key cc)
    then some key
    else let found = fold_match key cc [] in if is_empty found then none else some found

unfoldable pub has : Text → CacheControl → Bool
unfolding lookup_key
has key cc = is_some (lookup_key key cc)

-- cc[key], nil if it is not there.
unfoldable pub values_at : Text → CacheControl → List Text
values_at key cc = elim (lookup key cc) [ none ↦ [] | some values ↦ values ]

abbrev pub head_or_empty : List Text → Text
head_or_empty [] = []
head_or_empty (value ∷ rest) = value

-- The value of Get, without whether the key is there.
unfoldable pub get_value : Text → CacheControl → Text
unfolding lookup_key values_at
get_value key cc = elim (lookup_key key cc) [
  | none ↦ []
  | some stored ↦ head_or_empty (values_at stored cc)
]

unfoldable pub add_value : Text → Text → CacheControl → CacheControl
unfolding values_at
add_value key value cc =
    if is_empty value then cc else insert key (values_at key cc ++ (value ∷ [])) cc

unfoldable pub add : Text → Text → CacheControl → CacheControl
unfolding lookup_key add_value to_lower
add key value cc = elim (lookup_key key cc) [
  | some stored ↦ add_value stored value cc
  | none ↦ add_value (to_lower key) value (insert (to_lower key) [] cc)
]

unfoldable pub duration : Platform → Text → CacheControl → Option ℤ
unfolding get_value codes
duration P key cc = P.parse_duration (get_value key cc ++ codes "s")

-- The text up to the first byte of a set, and what follows it, that byte included.
unfoldable pub until : List ℕ → Text → Text × Text
until stops [] = ([], [])
until stops (b ∷ s) =
    let (token, rest) = until stops s in if contains b stops then ([], b ∷ s) else (b ∷ token, rest)

abbrev pub drop_one : Text → Text
drop_one [] = []
drop_one (b ∷ s) = s

pub data Step : Type 0 where
  skip equals : Step
  token : Text → Text → Step

-- What the parser does at a byte, with the text behind it: a quotation mark, a separator, an equals
-- sign, or a token.
unfoldable pub step : ℕ → Text → Step
unfolding until codes
step b s =
    if b == 34
    then (let (t, rest) = until (34 ∷ []) s in token t (drop_one rest))
    else if contains b (codes ",\n\r \t")
    then skip
    else if b == 61
    then equals
    else let (t, rest) = until (codes "\"\n\t\r ,=") (b ∷ s) in token t rest

-- The loop over the input; every round reads at least one byte, so its length is fuel enough.
unfoldable pub parse_loop : ℕ → Text → Bool → Text → CacheControl → CacheControl
unfolding step add
parse_loop zero s is_value last_key cc = cc
parse_loop (suc fuel) [] is_value last_key cc = cc
parse_loop (suc fuel) (b ∷ s) is_value last_key cc = elim (step b s) [
  | skip ↦ parse_loop fuel s is_value last_key cc
  | equals ↦ parse_loop fuel s true last_key cc
  | token t rest ↦
      parse_loop fuel rest false (if is_value then last_key else t)
        (if is_value then add last_key t cc else add t [] cc)
]

unfoldable pub parse_cache_control : Text → CacheControl
unfolding parse_loop
parse_cache_control input = parse_loop (length input) input false [] []

unfoldable pub parse_cache_control_headers : Headers → CacheControl
unfolding parse_cache_control combined_header_values codes
parse_cache_control_headers h =
    parse_cache_control (combined_header_values h (codes "Cache-Control"))

unfoldable pub print_values : Platform → Text → List Text → Text
unfolding codes
print_values P key [] = []
print_values P key (value ∷ values) =
    key ++ (codes "=" ++ (P.quote value ++ (codes ", " ++ print_values P key values)))

unfoldable pub print_directive : Platform → Text → List Text → Text
unfolding print_values codes
print_directive P key [] = key ++ codes ", "
print_directive P key (value ∷ values) = print_values P key (value ∷ values)

unfoldable pub keys : CacheControl → List Text
keys [] = []
keys ((key, values) ∷ cc) = key ∷ keys cc

unfoldable pub print_directives : Platform → List Text → CacheControl → Text
unfolding print_directive values_at
print_directives P [] cc = []
print_directives P (key ∷ ks) cc =
    print_directive P key (values_at key cc) ++ print_directives P ks cc

-- strings.TrimSuffix(s, ", ")
unfoldable pub trim_comma : Text → Text
unfolding codes
trim_comma [] = []
trim_comma (b ∷ s) = let rest = trim_comma s in if (b ∷ s) == codes ", " then [] else b ∷ rest

unfoldable pub print_cache_control : Platform → CacheControl → Text
unfolding print_directives sort keys trim_comma
print_cache_control P cc = trim_comma (print_directives P (sort (keys cc)) cc)
