-- ===== src/Http/Headers.antt =====
-- handler.go and conditional_response.go: reading an http.Header, and combinedHeaderValues.
use httpcache_kit.Common.{
  Bool, true, false, Option, none, some, List, [], ◌∷◌, ◌++◌, Map, lookup, text_key, Text, codes,
  text_ltb, equal_fold, if◌then◌else◌,
}

-- Field names in the spelling they were given, each with its field lines.
abbrev pub Headers : Type 0
Headers = Map Text (List Text)

unfoldable pub first_value : Option (List Text) → Text
first_value (some (value ∷ rest)) = value
first_value _ = []

-- h.Get, under a name that is in its canonical spelling already.
unfoldable pub get : Text → Headers → Text
unfolding first_value
get name h = first_value (lookup name h)

abbrev pub is_empty : Text → Bool
is_empty [] = true
is_empty (x ∷ xs) = false

-- strings.Join
unfoldable pub join : Text → List Text → Text
join separator [] = []
join separator (part ∷ parts) = elim parts [
  | [] ↦ part
  | _ ∷ _ ↦ part ++ (separator ++ join separator parts)
]

-- sort.Strings
unfoldable pub sorted_insert : Text → List Text → List Text
sorted_insert s [] = s ∷ []
sorted_insert s (t ∷ ts) =
    let rest = sorted_insert s ts in if text_ltb t s then t ∷ rest else s ∷ t ∷ ts

unfoldable pub sort : List Text → List Text
unfolding sorted_insert
sort [] = []
sort (s ∷ ss) = sorted_insert s (sort ss)

-- The names in the map that are spelled like the given one, but for case.
unfoldable pub names_like : Text → Headers → List Text
names_like name [] = []
names_like name ((key, values) ∷ h) =
    let rest = names_like name h in if equal_fold key name then key ∷ rest else rest

unfoldable pub values_of : List Text → Headers → List Text
values_of [] h = []
values_of (name ∷ names) h =
    let rest = values_of names h in
    elim (lookup name h) [ none ↦ rest | some values ↦ values ++ rest ]

unfoldable pub combined_header_values : Headers → Text → Text
unfolding names_like sort values_of join codes
combined_header_values h name = join (codes ", ") (values_of (sort (names_like name h)) h)
