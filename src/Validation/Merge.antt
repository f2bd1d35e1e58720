-- ===== src/Validation/Merge.antt =====
-- validator.go: what applyValidationResponse accepts, and the header that it leaves.
use mathlib.Core.Path.{subst}
use httpcache_kit.Validation.Warnings.{validated_warning_values}
use httpcache_kit.Common.{
  ℕ, ℤ, ◌≡◌, refl, Bool, true, false, ◌||◌, not, Option, none, some, List, [], ◌∷◌, ◌++◌, Text,
  codes, text_key, contains, lookup, insert, delete, lookup-insert, lookup-delete, IsMap,
  insert-IsMap, ◌==◌, arith, nat_eq, Bool-cases, inl, inr, text_eqb_iff,
}
use httpcache_kit.Http.Headers.{Headers, get, is_empty, sort}
use httpcache_kit.Http.Names.{canonical_header_key}
use httpcache_kit.Http.Platform.{Platform}
use httpcache_kit.Policy.Resource.{Resource}
use httpcache_kit.Policy.Storage.{corrected_age}
use httpcache_kit.Validation.Defs.{
  Printer, values, names, gather, canonical_validation_headers, headers_equal, replace_all,
  set_warnings, merge, set_age, apply_validation_response,
}

gather-IsMap :
    (ns : List Text) (h canonical : Headers) → IsMap canonical → IsMap (gather ns h canonical)
unfolding gather
gather-IsMap [] h canonical m = m
gather-IsMap (name ∷ ns) h canonical m =
    let key = canonical_header_key name in
    let lines = values key canonical ++ values name h in
    gather-IsMap ns h (insert key lines canonical) (insert-IsMap key lines canonical m)

canonical_validation_headers-IsMap : (h : Headers) → IsMap (canonical_validation_headers h)
unfolding canonical_validation_headers
canonical_validation_headers-IsMap h = gather-IsMap (sort (names h)) h [] tt

-- What the update says of a field, and otherwise what was there.
unfoldable pub replaced_by : Option (List Text) → Option (List Text) → Option (List Text)
replaced_by none stored = stored
replaced_by (some lines) stored = some lines

lookup-replace_all :
    (name : Text) (update merged : Headers)
    → (codes "Warning" == name) ≡ false
    → IsMap update
    → lookup name (replace_all update merged)
      ≡ replaced_by (lookup name update) (lookup name merged)
unfolding replace_all replaced_by lookup
lookup-replace_all name [] merged p m = refl
lookup-replace_all name ((key, lines) ∷ update) merged p m =
    let ih = λ (h : Headers). lookup-replace_all name update h p m.1 in
    elim (Bool-cases (key == codes "Warning")) [
      | inl warning ↦
          let away : (key == name) ≡ false = ground (arith, text_eqb_iff key (codes "Warning")) in
          rw (warning, away) (ih merged)
      | inr other ↦ elim (Bool-cases (key == name)) [
        | inl own ↦
            let same : key ≡ name = (text_eqb_iff key name).0 own in
            let gone : lookup name update ≡ none = subst (λ k. lookup k update ≡ none) same m.0 in
            let there = lookup-insert key name lines merged in
            rw (other, own, ih (insert key lines merged), gone, there) (rw own refl)
        | inr away ↦
            let there = lookup-insert key name lines merged in
            rw (other, away, ih (insert key lines merged), there) (rw away refl)
      ]
    ]

-- The fields that a validation computes anew.
abbrev pub computed : List Text
computed = codes "Age" ∷ codes "Warning" ∷ codes "Date" ∷ codes "Proxy-Date" ∷ []

lookup-set_warnings :
    (name : Text) (ws : List Text) (h : Headers)
    → (codes "Warning" == name) ≡ false
    → lookup name (set_warnings ws h) ≡ lookup name h
unfolding set_warnings
lookup-set_warnings name [] h p = rw (lookup-delete (codes "Warning") name h, p) refl
lookup-set_warnings name (w ∷ ws) h p = rw (lookup-insert (codes "Warning") name (w ∷ ws) h, p) refl

lookup-merge :
    (Pr : Printer) (now : ℕ) (name : Text) (stored update : Headers)
    → contains name computed ≡ false
    → IsMap update
    → lookup name (merge Pr now stored update)
      ≡ replaced_by (lookup name update) (lookup name stored)
unfolding merge contains
lookup-merge Pr now name stored update p m =
    let warned =
      validated_warning_values
        (values (codes "Warning") stored ++ values (codes "Warning") update) in
    let aged = delete (codes "Age") stored in
    let merged = replace_all update aged in
    let w : (codes "Warning" == name) ≡ false = ground arith in
    let d : (codes "Date" == name) ≡ false = ground arith in
    let a : (codes "Age" == name) ≡ false = ground arith in
    let kept : lookup name (set_warnings warned merged)
        ≡ replaced_by (lookup name update) (lookup name stored) =
      rw
        (
          lookup-set_warnings name warned merged w,
          lookup-replace_all name update aged w m,
          lookup-delete (codes "Age") name stored,
          a,
        )
        refl in
    elim (Bool-cases (is_empty (get (codes "Date") update))) [
      | inl undated ↦
          rw
            (
              undated,
              lookup-insert (codes "Date") name (Pr.print_time now ∷ [])
                  (set_warnings warned merged),
              d,
            )
            kept
      | inr dated ↦ rw dated kept
    ]

lookup-set_age :
    (Pr : Printer) (age : Option ℤ) (name : Text) (h : Headers)
    → (codes "Age" == name) ≡ false
    → lookup name (set_age Pr age h) ≡ lookup name h
unfolding set_age
lookup-set_age Pr none name h p = refl
lookup-set_age Pr (some age) name h p =
    rw (lookup-insert (codes "Age") name (Pr.print_seconds age ∷ []) h, p) refl

-- What an accepted validation says: the origin answered 304 and contradicts no validator, length or
-- coding of the stored response; the response dates from the start of the validation; and each of
-- its fields is the one of the answer, or the stored one where the answer has none, but for Age,
-- Warning, Date and Proxy-Date.
pub apply_validation_response_sound :
    (P : Platform) (Pr : Printer) (now : ℕ) (ended : Bool) (res : Resource) (status : ℕ)
    (header : Headers) (start : ℕ) (name : Text)
    → (apply_validation_response P Pr now ended res status header start).0 ≡ true
    → contains name computed ≡ false
    → (status ≡ 304)
      × (headers_equal
            (canonical_validation_headers res.header)
            (canonical_validation_headers header)
          ≡ true)
      × ((apply_validation_response P Pr now ended res status header start).1.request_time ≡ start)
      × (lookup name (apply_validation_response P Pr now ended res status header start).1.header
          ≡ replaced_by
              (lookup name (canonical_validation_headers header))
              (lookup name (canonical_validation_headers res.header)))
unfolding apply_validation_response contains
apply_validation_response_sound P Pr now ended res status header start name accepted other =
    let stored = canonical_validation_headers res.header in
    let update = canonical_validation_headers header in
    let guard = ended || not (status == 304) || not (headers_equal stored update) in
    let merged = merge Pr now stored update in
    let age = corrected_age P now merged start now in
    let aged = set_age Pr age merged in
    elim (Bool-cases guard) [
      | inl refused ↦
          let absurd : false ≡ true = rw (refused, apply_validation_response) at accepted in
          ground arith
      | inr passed ↦
          let a : (codes "Age" == name) ≡ false = ground arith in
          let d : (codes "Proxy-Date" == name) ≡ false = ground arith in
          let kept =
            lookup-merge Pr now name stored update other
              (canonical_validation_headers-IsMap header) in
          rw passed (
            ground arith,
            ground arith,
            refl,
            rw
                (
                  lookup-insert (codes "Proxy-Date") name (Pr.print_time now ∷ []) aged,
                  d,
                  lookup-set_age Pr age name merged a,
                )
                kept,
          )
    ]
