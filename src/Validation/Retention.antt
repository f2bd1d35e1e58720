-- ===== src/Validation/Retention.antt =====
-- validator.go: which warnings survive a validation.
use httpcache_kit.Common.{
  ℕ, ◌+◌, ◌≡◌, refl, Bool, ◌&&◌, ◌||◌, not, List, [], ◌∷◌, ◌++◌, Text, text_key, contains, ◌==◌,
  arith, Bool-cases, inl, inr, if◌then◌else◌, map, nat_eq, text_eqb_iff,
}
use httpcache_kit.Http.Headers.{is_empty}
use httpcache_kit.Validation.Warnings.{
  split_warning_values, trim, is_transient_warning, retain, warning_groups,
}

abbrev pub count : Text → List Text → ℕ
count v [] = 0
count v (w ∷ ws) = let rest = count v ws in if w == v then 1 + rest else rest

-- All values of the fields, trimmed.
unfoldable pub all_values : List Text → List Text
all_values [] = []
all_values (field ∷ fields) = map trim (split_warning_values field) ++ all_values fields

unfoldable pub flat : List (List Text) → List Text
flat [] = []
flat (kept ∷ groups) = kept ++ flat groups

-- Neither empty nor of the class 1xx.
unfoldable pub is_persistent : Text → Bool
is_persistent v = not (is_empty v) && not (is_transient_warning v)

count-retain :
    (v : Text) (seen parts : List Text)
    → (count v (retain seen parts).0 ≡ (
        if is_persistent v && contains v (map trim parts) && not (contains v seen) then 1 else 0))
      × (contains v (retain seen parts).1
          ≡ contains v seen || is_persistent v && contains v (map trim parts))
unfolding retain contains is_persistent
count-retain v seen [] = ground arith
count-retain v seen (part ∷ parts) =
    let value = trim part in
    let skipped = is_empty value || is_transient_warning value || contains value seen in
    elim (Bool-cases skipped) [
      | inl out ↦
          let after = count-retain v seen parts in
          rw out (ground (arith, after, text_eqb_iff value v))
      | inr kept ↦
          let after = count-retain v (value ∷ seen) parts in
          rw kept (ground (arith, after, text_eqb_iff value v))
    ]

count-append : (v : Text) (xs ys : List Text) → count v (xs ++ ys) ≡ count v xs + count v ys
count-append v [] ys = omega arith
count-append v (x ∷ xs) ys = ground (arith, count-append v xs ys)

contains-append :
    (v : Text) (xs ys : List Text) → contains v (xs ++ ys) ≡ contains v xs || contains v ys
unfolding contains
contains-append v [] ys = refl
contains-append v (x ∷ xs) ys = ground (arith, contains-append v xs ys)

count-warning_groups_from :
    (v : Text) (seen fields : List Text)
    → count v (flat (warning_groups seen fields)) ≡ (
        if is_persistent v && contains v (all_values fields) && not (contains v seen) then 1 else 0)
unfolding warning_groups flat all_values contains
count-warning_groups_from v seen [] = ground arith
count-warning_groups_from v seen (field ∷ fields) =
    let parts = split_warning_values field in
    let r = retain seen parts in
    ground (
      arith,
      count-append v r.0 (flat (warning_groups r.1 fields)),
      contains-append v (map trim parts) (all_values fields),
      count-retain v seen parts,
      count-warning_groups_from v r.1 fields,
    )

-- Of the warnings of the stored response and of the validation, every one that is neither empty
-- nor of the class 1xx is kept exactly once, and no other is kept.
pub count-warning_groups :
    (v : Text) (fields : List Text)
    → count v (flat (warning_groups [] fields))
      ≡ (if is_persistent v && contains v (all_values fields) then 1 else 0)
unfolding contains
count-warning_groups v fields = ground (arith, count-warning_groups_from v [] fields)
