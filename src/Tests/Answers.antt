-- ===== src/Tests/Answers.antt =====
-- The theorems on validations, at concrete headers.
use httpcache_kit.Common.{
  List, ℕ, ◌≡◌, refl, true, false, ◌&&◌, [], ◌∷◌, codes, contains, lookup, insert, delete, text_key,
  nat_eq, equal_fold, if◌then◌else◌, to_lower, text_ltb,
}
use httpcache_kit.Http.Headers.{Headers, join, get, first_value, sort, sorted_insert}
use httpcache_kit.Http.Names.{canonical_header_key, all_token, is_token_byte, capitalize, upper}
use httpcache_kit.Validation.Warnings.{
  after_byte, is_boundary, split_from, split_warning_values, trim_blanks, trim, is_digit,
  is_transient_warning, retain, warning_groups, joined, validated_warning_values,
}
use httpcache_kit.Validation.Retention.{
  count, flat, all_values, is_persistent, count-warning_groups,
}
use httpcache_kit.Validation.Quoting.{
  Part, bare, quotation, plain, escaped, field_of, split_warning_values-field_of,
}
use httpcache_kit.Validation.Defs.{
  Printer, values, names, gather, canonical_validation_headers, is_equal_at, headers_equal_at,
  headers_equal, apply_validation_response,
}
use httpcache_kit.Validation.Merge.{replaced_by, apply_validation_response_sound}
use httpcache_kit.Tests.Web.{platform, response}

abbrev printer : Printer
unfolding codes
printer = record { print_time = λ n. codes "now"; print_seconds = λ n. codes "0" }

abbrev stored : Headers
unfolding codes
stored =
    (codes "ETag", codes "v1" ∷ [])
    ∷ (codes "Content-Length", codes "3" ∷ [])
    ∷ (codes "Cache-Control", codes "max-age=1" ∷ [])
    ∷ []

abbrev answer : Headers
unfolding codes
answer = (codes "etag", codes "v1" ∷ []) ∷ (codes "Cache-Control", codes "max-age=9" ∷ []) ∷ []

program : Unit {0}
unfolding codes contains lookup insert delete equal_fold to_lower text_ltb join get first_value sort
    sorted_insert canonical_header_key all_token is_token_byte capitalize upper values names gather
    canonical_validation_headers is_equal_at headers_equal_at headers_equal
    apply_validation_response split_from split_warning_values after_byte is_boundary trim_blanks
    trim is_digit is_transient_warning retain warning_groups joined validated_warning_values
program = tt

cut :
    split_warning_values (codes "110 - \"a, b\", 299 - \"c\"")
    ≡ codes "110 - \"a, b\"" ∷ codes " 299 - \"c\"" ∷ []
unfolding program
cut = refl

kept :
    validated_warning_values
      (codes "110 - \"a, b\", 299 - \"c\"" ∷ codes "299 - \"c\",214 - \"d\"" ∷ [])
    ≡ codes "299 - \"c\"" ∷ codes "214 - \"d\"" ∷ []
unfolding program
kept = refl

-- 299 and a quotation of a comma, a mark and a backslash, and a second value.
abbrev warning : List Part
warning =
    bare 50
    ∷ bare 57
    ∷ bare 57
    ∷ bare 32
    ∷ quotation (plain 97 ∷ plain 44 ∷ escaped 34 ∷ escaped 92 ∷ [])
    ∷ []

split_warning_values-field_of_example :
    split_warning_values (field_of warning ((bare 49 ∷ []) ∷ []))
    ≡ (50 ∷ 57 ∷ 57 ∷ 32 ∷ 34 ∷ 97 ∷ 44 ∷ 92 ∷ 34 ∷ 92 ∷ 92 ∷ 34 ∷ []) ∷ (49 ∷ []) ∷ []
split_warning_values-field_of_example =
    split_warning_values-field_of warning ((bare 49 ∷ []) ∷ []) refl (refl, tt)

count-warning_groups_example :
    count (codes "299 - \"c\"") (flat (warning_groups [] (codes "299 - \"c\", 299 - \"c\"" ∷ [])))
    ≡ (if is_persistent (codes "299 - \"c\"")
          && contains (codes "299 - \"c\"") (all_values (codes "299 - \"c\", 299 - \"c\"" ∷ []))
        then 1
        else 0)
count-warning_groups_example =
    count-warning_groups (codes "299 - \"c\"") (codes "299 - \"c\", 299 - \"c\"" ∷ [])

accepted :
    (apply_validation_response platform printer 100 false (response stored 0 0) 304 answer 50).0
    ≡ true
unfolding program
accepted = refl

apply_validation_response_sound_example :
    (◌≡◌ {A = ℕ} 304 304)
    × (headers_equal (canonical_validation_headers stored) (canonical_validation_headers answer)
        ≡ true)
    × ((apply_validation_response platform printer 100 false
          (response stored 0 0)
          304
          answer
          50).1.request_time
        ≡ 50)
    × (lookup
          (codes "Content-Length")
          (apply_validation_response platform printer 100 false
            (response stored 0 0)
            304
            answer
            50).1.header
        ≡ replaced_by
            (lookup (codes "Content-Length") (canonical_validation_headers answer))
            (lookup (codes "Content-Length") (canonical_validation_headers stored)))
apply_validation_response_sound_example =
    apply_validation_response_sound platform printer 100 false (response stored 0 0) 304 answer 50
      (codes "Content-Length") accepted (unfold program in refl)
