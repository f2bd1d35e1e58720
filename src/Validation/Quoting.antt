-- ===== src/Validation/Quoting.antt =====
-- validator.go: splitWarningValues, on fields that are written with quotations.
use httpcache_kit.Common.{
  ℕ, ◌≡◌, refl, ap, ◌∙◌, Bool, true, false, ◌&&◌, not, List, [], ◌∷◌, Text, ◌==◌, nat_eq, arith,
  map, All, Bool-cases, inl, inr,
}
use httpcache_kit.Http.Names.{cons_first}
use httpcache_kit.Validation.Warnings.{after_byte, is_boundary, split_from, split_warning_values}

-- A byte of a quotation, as it is or behind a backslash.
pub data Quoted : Type 0 where
  plain escaped : ℕ → Quoted

-- A part of a value: a byte, or a quotation.
pub data Part : Type 0 where
  bare : ℕ → Part
  quotation : List Quoted → Part

-- A quotation behind its opening mark; `rest` follows it.
abbrev pub print_quotation : List Quoted → Text → Text
print_quotation [] rest = 34 ∷ rest
print_quotation (plain b ∷ q) rest = b ∷ print_quotation q rest
print_quotation (escaped b ∷ q) rest = 92 ∷ b ∷ print_quotation q rest

abbrev pub print : List Part → Text → Text
print [] rest = rest
print (bare b ∷ v) rest = b ∷ print v rest
print (quotation q ∷ v) rest = 34 ∷ print_quotation q (print v rest)

-- Within a quotation, a mark or a backslash stands behind a backslash.
abbrev pub are_quoted : List Quoted → Bool
are_quoted [] = true
are_quoted (plain b ∷ q) = not (b == 34) && not (b == 92) && are_quoted q
are_quoted (escaped b ∷ q) = are_quoted q

-- Outside, a byte is neither a mark nor a comma.
abbrev pub is_value : List Part → Bool
is_value [] = true
is_value (bare b ∷ v) = not (b == 34) && not (b == 44) && is_value v
is_value (quotation q ∷ v) = are_quoted q && is_value v

-- Values, with commas between them.
abbrev pub field_of : List Part → List (List Part) → Text
field_of v [] = print v []
field_of v (u ∷ vs) = print v (44 ∷ field_of u vs)

abbrev cons_all : (Text → Text) → List Text → List Text
cons_all text [] = text [] ∷ []
cons_all text (part ∷ parts) = text part ∷ parts

cons_first_all : (b : ℕ) (parts : List Text) → cons_first b parts ≡ cons_all (λ t. b ∷ t) parts
cons_first_all b [] = refl
cons_first_all b (part ∷ parts) = refl

cons_first-cons_all :
    (b : ℕ) (text : Text → Text) (parts : List Text)
    → cons_first b (cons_all text parts) ≡ cons_all (λ t. b ∷ text t) parts
cons_first-cons_all b text [] = refl
cons_first-cons_all b text (part ∷ parts) = refl

cons_all-cons_all :
    (outer text : Text → Text) (parts : List Text)
    → cons_all outer (cons_all text parts) ≡ cons_all (λ t. outer (text t)) parts
cons_all-cons_all outer text [] = refl
cons_all-cons_all outer text (part ∷ parts) = refl

split_from-print_quotation :
    (q : List Quoted) (rest : Text)
    → are_quoted q ≡ true
    → split_from true false (print_quotation q rest)
      ≡ cons_all (print_quotation q) (split_from false false rest)
unfolding split_from after_byte is_boundary
split_from-print_quotation [] rest good = cons_first_all 34 (split_from false false rest)
split_from-print_quotation (plain b ∷ q) rest good =
    let parts = split_from false false rest in
    let mark : (b == 34) ≡ false = ground arith in
    let slash : (b == 92) ≡ false = ground arith in
    let ih = split_from-print_quotation q rest (ground arith) in
    rw (mark, slash, ih) (cons_first-cons_all b (print_quotation q) parts)
split_from-print_quotation (escaped b ∷ q) rest good =
    let parts = split_from false false rest in
    let ih = split_from-print_quotation q rest good in
    rw (ih, cons_first-cons_all b (print_quotation q) parts)
      (cons_first-cons_all 92 (λ t. b ∷ print_quotation q t) parts)

cons_first_parts :
    (b : ℕ) (parts : List Text) → cons_first b parts ≡ cons_all (λ t. t) (cons_first b parts)
cons_first_parts b [] = refl
cons_first_parts b (part ∷ parts) = refl

-- There is always a first part.
split_from_parts :
    (s : Text) → split_from false false s ≡ cons_all (λ t. t) (split_from false false s)
unfolding split_from
split_from_parts [] = refl
split_from_parts (b ∷ s) =
    let next = after_byte false false b in
    elim (Bool-cases (is_boundary false false b)) [
      | inl boundary ↦ rw boundary refl
      | inr inside ↦ rw inside (cons_first_parts b (split_from next.0 next.1 s))
    ]

split_from-print :
    (v : List Part) (rest : Text)
    → is_value v ≡ true
    → split_from false false (print v rest) ≡ cons_all (print v) (split_from false false rest)
unfolding split_from after_byte is_boundary
split_from-print [] rest good = split_from_parts rest
split_from-print (bare b ∷ v) rest good =
    let parts = split_from false false rest in
    let mark : (b == 34) ≡ false = ground arith in
    let comma : (b == 44) ≡ false = ground arith in
    let ih = split_from-print v rest (ground arith) in
    rw (mark, comma, ih) (cons_first-cons_all b (print v) parts)
split_from-print (quotation q ∷ v) rest good =
    let parts = split_from false false rest in
    let inner = split_from-print_quotation q (print v rest) (ground arith) in
    let ih = split_from-print v rest (ground arith) in
    rw (inner, ih, cons_all-cons_all (print_quotation q) (print v) parts)
      (cons_first-cons_all 34 (λ t. print_quotation q (print v t)) parts)

-- A Warning field that writes values one behind the other, with commas between them, is cut into
-- exactly those values, whatever commas, marks and backslashes their quotations hold. A quotation
-- ends at its first mark that is not behind a backslash; outside of quotations a value has neither
-- marks nor commas.
pub split_warning_values-field_of :
    (v : List Part) (vs : List (List Part))
    → is_value v ≡ true
    → All (λ u. is_value u ≡ true) vs
    → split_warning_values (field_of v vs) ≡ map (λ u. print u []) (v ∷ vs)
unfolding split_warning_values split_from after_byte is_boundary
split_warning_values-field_of v [] good all = split_from-print v [] good
split_warning_values-field_of v (u ∷ vs) good all =
    split_from-print v (44 ∷ field_of u vs) good
    ∙ ap (λ parts. print v [] ∷ parts) (split_warning_values-field_of u vs all.0 all.1)
