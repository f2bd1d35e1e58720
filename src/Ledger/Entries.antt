-- ===== src/Ledger/Entries.antt =====
-- The LRU list as a map from hashed keys: what finding, removing and resizing entries do.
use httpcache_kit.Common.{
  ℕ, ◌+◌, ◌≡◌, refl, none, some, List, [], ◌∷◌, arith, sum_by, ◌==◌, nat_eq, if◌then◌else◌,
}
use httpcache_kit.Ledger.Defs.{Entry, find, without, resize, size_of}

abbrev pub sizes : List Entry → ℕ
sizes = sum_by (λ e. e.size)

-- No hashed key stands in the list twice.
abbrev pub IsDistinct : List Entry → Type 0
IsDistinct [] = Unit
IsDistinct (e ∷ es) = (find e.hashed_key es ≡ none) × IsDistinct es

pub find_hashed_key : (h : ℕ) (es : List Entry) (e : Entry) → find h es ≡ some e → e.hashed_key ≡ h
unfolding find
find_hashed_key h [] e p = ground arith
find_hashed_key h (x ∷ es) e p = ground (arith, find_hashed_key h es e)

pub find-without :
    (h j : ℕ) (es : List Entry) → find j (without h es) ≡ (if h == j then none else find j es)
unfolding find without
find-without h j [] = ground arith
find-without h j (x ∷ es) = ground (arith, find-without h j es)

pub without_absent : (h : ℕ) (es : List Entry) → find h es ≡ none → without h es ≡ es
unfolding find without
without_absent h [] p = refl
without_absent h (x ∷ es) p = ground (arith, without_absent h es)

pub without-IsDistinct : (h : ℕ) (es : List Entry) → IsDistinct es → IsDistinct (without h es)
unfolding without
without-IsDistinct h [] d = tt
without-IsDistinct h (x ∷ es) d =
    ground (arith, without-IsDistinct h es, find-without h x.hashed_key es)

pub sizes-without :
    (h : ℕ) (es : List Entry)
    → IsDistinct es
    → sizes (without h es) + size_of (find h es) ≡ sizes es
unfolding find without
sizes-without h [] d = omega arith
sizes-without h (x ∷ es) d = ground (arith, sizes-without h es, without_absent h es)

pub find-resize : (h n j : ℕ) (es : List Entry) → find j es ≡ none → find j (resize h n es) ≡ none
unfolding find resize
find-resize h n j [] p = refl
find-resize h n j (x ∷ es) p = ground (arith, find-resize h n j es)

pub resize-IsDistinct : (h n : ℕ) (es : List Entry) → IsDistinct es → IsDistinct (resize h n es)
unfolding resize
resize-IsDistinct h n [] d = tt
resize-IsDistinct h n (x ∷ es) d =
    ground (arith, resize-IsDistinct h n es, find-resize h n x.hashed_key es)

resize_absent : (h n : ℕ) (es : List Entry) → find h es ≡ none → resize h n es ≡ es
unfolding find resize
resize_absent h n [] p = refl
resize_absent h n (x ∷ es) p = ground (arith, resize_absent h n es)

pub sizes-resize :
    (h n : ℕ) (es : List Entry) (e : Entry)
    → IsDistinct es
    → find h es ≡ some e
    → sizes (resize h n es) + e.size ≡ sizes es + n
unfolding find resize
sizes-resize h n [] e d p = ground arith
sizes-resize h n (x ∷ es) e d p = ground (arith, sizes-resize h n es e, resize_absent h n es)
