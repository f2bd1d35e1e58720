-- ===== src/Ledger/Tracking.antt =====
-- The entries that a loop is about to visit stand in the list, each once, until they are dropped.
use mathlib.Core.List.{reverse-append}
use httpcache_kit.Common.{
  Bool-cases, inl, inr, ◌==◌, ℕ, ◌≡◌, ◌≢◌, refl, none, some, List, [], ◌∷◌, ◌++◌, reverse, arith,
  All, All-append, nat_eq,
}
use httpcache_kit.Ledger.Defs.{Entry, find, without}
use httpcache_kit.Ledger.Entries.{IsDistinct, find-without}

abbrev pub IsTracked : List Entry → List Entry → Type 0
IsTracked es lru = All (λ e. find e.hashed_key lru ≡ some e) es

IsTracked-cons :
    (x : Entry) (es lru : List Entry)
    → find x.hashed_key es ≡ none
    → IsTracked es lru
    → IsTracked es (x ∷ lru)
unfolding find
IsTracked-cons x [] lru p t = tt
IsTracked-cons x (e ∷ es) lru p t = ground (arith, IsTracked-cons x es lru)

pub IsTracked-without :
    (h : ℕ) (es lru : List Entry)
    → find h es ≡ none
    → IsTracked es lru
    → IsTracked es (without h lru)
unfolding find
IsTracked-without h [] lru p t = tt
IsTracked-without h (e ∷ es) lru p t =
    ground (arith, IsTracked-without h es lru, find-without h e.hashed_key lru)

pub IsTracked-self : (lru : List Entry) → IsDistinct lru → IsTracked lru lru
unfolding find
IsTracked-self [] d = tt
IsTracked-self (x ∷ lru) d = ground (arith, IsTracked-cons x lru lru d.0 (IsTracked-self lru d.1))

find-append :
    (h : ℕ) (es : List Entry) (x : Entry)
    → find h es ≡ none
    → x.hashed_key ≢ h
    → find h (es ++ x ∷ []) ≡ none
unfolding find
find-append h [] x p q = ground arith
find-append h (e ∷ es) x p q = ground (arith, find-append h es x)

find-reverse : (h : ℕ) (es : List Entry) → find h es ≡ none → find h (reverse es) ≡ none
unfolding find
find-reverse h [] p = refl
find-reverse h (e ∷ es) p =
    rw (reverse-append (e ∷ []) es)
      (find-append h (reverse es) e (find-reverse h es (ground arith)) (ground arith))

IsDistinct-append :
    (es : List Entry) (x : Entry)
    → IsDistinct es
    → find x.hashed_key es ≡ none
    → IsDistinct (es ++ x ∷ [])
unfolding find
IsDistinct-append [] x d p = (refl, tt)
IsDistinct-append (e ∷ es) x d p =
    (find-append e.hashed_key es x d.0 (ground arith), IsDistinct-append es x d.1 (ground arith))

pub reverse-IsDistinct : (es : List Entry) → IsDistinct es → IsDistinct (reverse es)
reverse-IsDistinct [] d = tt
reverse-IsDistinct (e ∷ es) d = rw (reverse-append (e ∷ []) es) (
    IsDistinct-append (reverse es) e (reverse-IsDistinct es d.1) (find-reverse e.hashed_key es d.0))

reverse-IsTracked : (es lru : List Entry) → IsTracked es lru → IsTracked (reverse es) lru
reverse-IsTracked [] lru t = tt
reverse-IsTracked (e ∷ es) lru t =
    rw (reverse-append (e ∷ []) es)
      (All-append _ (reverse es) (e ∷ []) (reverse-IsTracked es lru t.1) (t.0, tt))

pub IsTracked-reverse : (lru : List Entry) → IsDistinct lru → IsTracked (reverse lru) lru
IsTracked-reverse lru d = reverse-IsTracked lru lru (IsTracked-self lru d)

find-append_some :
    (h : ℕ) (es : List Entry) (x e : Entry) → find h es ≡ some e → find h (es ++ x ∷ []) ≡ some e
unfolding find
find-append_some h [] x e p = ground arith
find-append_some h (y ∷ es) x e p = ground (arith, find-append_some h es x e)

find-append_last :
    (h : ℕ) (es : List Entry) (x : Entry)
    → find h es ≡ none
    → x.hashed_key ≡ h
    → find h (es ++ x ∷ []) ≡ some x
unfolding find
find-append_last h [] x p q = ground arith
find-append_last h (y ∷ es) x p q = ground (arith, find-append_last h es x)

pub find-reverse-some :
    (h : ℕ) (es : List Entry) (e : Entry)
    → IsDistinct es
    → find h es ≡ some e
    → find h (reverse es) ≡ some e
unfolding find
find-reverse-some h [] e d p = p
find-reverse-some h (x ∷ es) e d p =
    rw (reverse-append (x ∷ []) es) (elim (Bool-cases (x.hashed_key == h)) [
      | inl same ↦
          let k : x.hashed_key ≡ h = ground arith in
          let last =
            find-append_last h (reverse es) x (find-reverse h es (ground (arith, d.0))) k in
          ground arith
      | inr other ↦
          find-append_some h (reverse es) x e (find-reverse-some h es e d.1 (ground arith))
    ])
