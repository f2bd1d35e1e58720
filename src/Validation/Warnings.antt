-- ===== src/Validation/Warnings.antt =====
-- validator.go: the Warning fields of a validated response.
use httpcache_kit.Common.{
  ℕ, Bool, true, false, ◌&&◌, ◌||◌, not, List, [], ◌∷◌, reverse, Text, codes, text_key, nat_eq,
  contains, leb, ◌==◌, if◌then◌else◌,
}
use httpcache_kit.Http.Headers.{join, is_empty}
use httpcache_kit.Http.Names.{cons_first}

-- The quoting behind a byte: whether a quotation is open, and whether the next byte is escaped.
unfoldable pub after_byte : Bool → Bool → ℕ → Bool × Bool
after_byte quoted escaped b =
    if escaped
    then (quoted, false)
    else if quoted && b == 92
    then (quoted, true)
    else if b == 34
    then (not quoted, false)
    else (quoted, false)

unfoldable pub is_boundary : Bool → Bool → ℕ → Bool
is_boundary quoted escaped b = not escaped && not quoted && b == 44

unfoldable pub split_from : Bool → Bool → Text → List Text
split_from quoted escaped [] = [] ∷ []
split_from quoted escaped (b ∷ s) =
    let (quoted', escaped') = after_byte quoted escaped b in
    let rest = split_from quoted' escaped' s in
    if is_boundary quoted escaped b then [] ∷ rest else cons_first b rest

unfoldable pub split_warning_values : Text → List Text
split_warning_values field = split_from false false field

-- strings.Trim(value, " \t")
unfoldable pub trim_blanks : Text → Text
trim_blanks [] = []
trim_blanks (b ∷ s) = let rest = trim_blanks s in if (b == 32) || (b == 9) then rest else b ∷ s

unfoldable pub trim : Text → Text
trim s = reverse (trim_blanks (reverse (trim_blanks s)))

unfoldable pub is_digit : ℕ → Bool
is_digit b = leb 48 b && leb b 57

unfoldable pub is_transient_warning : Text → Bool
is_transient_warning (a ∷ b ∷ c ∷ d ∷ s) =
    (a == 49) && is_digit b && is_digit c && ((d == 32) || (d == 9))
is_transient_warning _ = false

-- The values of one field that are kept, and all that were kept so far.
unfoldable pub retain : List Text → List Text → List Text × List Text
retain seen [] = ([], seen)
retain seen (part ∷ parts) =
    let value = trim part in
    let skipped = is_empty value || is_transient_warning value || contains value seen in
    let (kept, seen') = retain (if skipped then seen else value ∷ seen) parts in
    if skipped then (kept, seen') else (value ∷ kept, seen')

-- The kept values of each field.
unfoldable pub warning_groups : List Text → List Text → List (List Text)
warning_groups seen [] = []
warning_groups seen (field ∷ fields) =
    let (kept, seen') = retain seen (split_warning_values field) in
    kept ∷ warning_groups seen' fields

unfoldable pub joined : List (List Text) → List Text
joined [] = []
joined (kept ∷ groups) =
    let rest = joined groups in
    let line = join (codes ", ") kept in elim kept [ [] ↦ rest | _ ∷ _ ↦ line ∷ rest ]

unfoldable pub validated_warning_values : List Text → List Text
validated_warning_values fields = joined (warning_groups [] fields)
