-- ===== src/Http/Names.antt =====
-- http.CanonicalHeaderKey and strings.TrimSpace, strings.Split, on which key.go builds.
use httpcache_kit.Common.{
  ℕ, ◌-◌, Bool, true, ◌&&◌, ◌||◌, List, [], ◌∷◌, reverse, leb, Text, codes, lower, ◌==◌, nat_eq,
  contains, if◌then◌else◌,
}

unfoldable pub upper : ℕ → ℕ
upper b = if leb 97 b && leb b 122 then b - 32 else b

-- The bytes of a field name: letters, digits and !#$%&'*+-.^_`|~
unfoldable pub is_token_byte : ℕ → Bool
unfolding codes contains
is_token_byte b =
    (leb 48 b && leb b 57)
    || (leb 65 b && leb b 90)
    || (leb 97 b && leb b 122)
    || contains b (codes "!#$%&'*+-.^_`|~")

unfoldable pub all_token : Text → Bool
unfolding is_token_byte
all_token [] = true
all_token (b ∷ s) = is_token_byte b && all_token s

-- A letter is upper case at the start and after a dash, and lower case elsewhere.
unfoldable pub capitalize : Bool → Text → Text
unfolding upper
capitalize start [] = []
capitalize start (b ∷ s) = (if start then upper b else lower b) ∷ capitalize (b == 45) s

-- http.CanonicalHeaderKey: a text with other bytes is left as it is.
unfoldable pub canonical_header_key : Text → Text
unfolding all_token capitalize
canonical_header_key s = if all_token s then capitalize true s else s

unfoldable pub is_space : ℕ → Bool
is_space b = (b == 32) || (leb 9 b && leb b 13)

unfoldable pub trim_left : Text → Text
unfolding is_space
trim_left [] = []
trim_left (b ∷ s) = let rest = trim_left s in if is_space b then rest else b ∷ s

unfoldable pub trim_space : Text → Text
unfolding trim_left
trim_space s = reverse (trim_left (reverse (trim_left s)))

abbrev pub cons_first : ℕ → List Text → List Text
cons_first b [] = (b ∷ []) ∷ []
cons_first b (part ∷ parts) = (b ∷ part) ∷ parts

-- strings.Split at a byte.
unfoldable pub split : ℕ → Text → List Text
split separator [] = [] ∷ []
split separator (b ∷ s) =
    let rest = split separator s in if b == separator then [] ∷ rest else cons_first b rest
