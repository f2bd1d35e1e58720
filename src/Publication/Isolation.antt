-- ===== src/Publication/Isolation.antt =====
-- handler_publication.go: what is stamped on a retrieval, against the publications of its key.
use mathlib.Core.Path.{subst}
use httpcache_kit.Common.{
  ℕ, ◌<◌, ◌≡◌, ◌≢◌, refl, sym, Bool, true, false, Option, none, some, List, [], ◌∷◌, Map, lookup,
  delete, contains, arith, ◌==◌, nat_eq, text_key, Text, All, ◌∙◌, ap, Bool-cases, Option-cases,
  inl, inr, text_eqb_iff, All-lookup, if◌then◌else◌,
}
use httpcache_kit.Http.Headers.{sort, sorted_insert}
use httpcache_kit.Publication.Defs.{
  FreshProof, Evidence, compact, push, begin_one, begin_all, begin_local_publication,
  local_publication_snapshot, stamp,
}
use httpcache_kit.Publication.Runs.{
  Run, done, begins, finishes, records, publishes, Run-Holds, begin_all-Holds,
}

-- Every address given out is below the next one.
unfoldable pub IsNumbered : Evidence → Type 0
IsNumbered s = Unit {0} × All (λ e. e.1.address < s.next_address) s.local_fresh

-- No proof of the key has the address, and none will.
unfoldable IsGone : Text → ℕ → Evidence → Type 0
IsGone key a s = (a < s.next_address) × All (λ e. e.0 ≡ key → e.1.address ≢ a) s.local_fresh

-- In every run the addresses stay distinct from those to come.
pub Run-IsNumbered : {s t : Evidence} → Run s t → IsNumbered s → IsNumbered t
unfolding IsNumbered
Run-IsNumbered r h =
    Run-Holds (λ n. Unit {0}) (λ n e. e.1.address < n) (λ n u. tt) (λ n e less. omega arith)
      (λ n at key u. omega arith) r h

begin_all-IsGone :
    (key : Text) (a : ℕ) (keys : List Text) (s : Evidence)
    → IsGone key a s
    → IsGone key a (begin_all keys s)
unfolding IsGone
begin_all-IsGone key a keys s h =
    begin_all-Holds (λ n. a < n) (λ n e. e.0 ≡ key → e.1.address ≢ a) (λ n less. omega arith)
      (λ n e g. g) (λ n at k less same q. omega arith) keys s h

Run-IsGone : (key : Text) (a : ℕ) {s t : Evidence} → Run s t → IsGone key a s → IsGone key a t
unfolding IsGone
Run-IsGone key a r h =
    Run-Holds (λ n. a < n) (λ n e. e.0 ≡ key → e.1.address ≢ a) (λ n less. omega arith) (λ n e g. g)
      (λ n at k less same q. omega arith) r h

deleted :
    (key : Text) (a : ℕ) (m : Map Text FreshProof)
    → All (λ e. e.0 ≡ key → e.1.address ≢ a) (delete key m)
unfolding delete
deleted key a [] = tt
deleted key a ((k, p) ∷ m) = elim (Bool-cases (k == key)) [
  | inl same ↦ rw same (deleted key a m)
  | inr other ↦ rw other (λ e. ground (arith, text_eqb_iff k key), deleted key a m)
]

begun-IsGone :
    (key : Text) (a : ℕ) (keys : List Text) (s : Evidence)
    → a < s.next_address
    → contains key keys ≡ true
    → IsGone key a (begin_all keys s)
unfolding begin_all begin_one IsGone contains
begun-IsGone key a [] s less h = ground arith
begun-IsGone key a (k ∷ keys) s less h = elim (Bool-cases (k == key)) [
  | inl same ↦ begin_all-IsGone key a keys (begin_one k s) (
    less,
    subst (λ j. All (λ e. e.0 ≡ key → e.1.address ≢ a) (delete j s.local_fresh))
        (sym ((text_eqb_iff k key).0 same)) (deleted key a s.local_fresh),
  )
  | inr other ↦ begun-IsGone key a keys (begin_one k s) less (ground arith)
]

contains-sorted_insert :
    (key s : Text) (ts : List Text)
    → contains key (sorted_insert s ts) ≡ (if s == key then true else contains key ts)
unfolding contains sorted_insert
contains-sorted_insert key s [] = refl
contains-sorted_insert key s (t ∷ ts) = ground (arith, contains-sorted_insert key s ts)

contains-sort : (key : Text) (ts : List Text) → contains key (sort ts) ≡ contains key ts
unfolding contains sort
contains-sort key [] = refl
contains-sort key (t ∷ ts) =
    ground (arith, contains-sorted_insert key t (sort ts), contains-sort key ts)

contains-push : (key t : Text) (ts : List Text) → contains key (push t ts) ≡ contains key (t ∷ ts)
unfolding contains push
contains-push key t [] = refl
contains-push key t (u ∷ us) = ground (arith, text_eqb_iff t u)

contains-compact : (key : Text) (ts : List Text) → contains key (compact ts) ≡ contains key ts
unfolding contains compact
contains-compact key [] = refl
contains-compact key (t ∷ ts) =
    ground (arith, contains-push key t (compact ts), contains-compact key ts)

begin_local_publication-IsGone :
    (key : Text) (a : ℕ) (keys : List Text) (s : Evidence)
    → a < s.next_address
    → contains key keys ≡ true
    → IsGone key a (begin_local_publication keys s)
unfolding begin_local_publication
begin_local_publication-IsGone key a keys s less h =
    begun-IsGone key a (compact (sort keys)) s less
      (contains-compact key (sort keys) ∙ contains-sort key keys ∙ h)

every_unit : (m : Map Text FreshProof) → All (λ e. Unit {0}) m
every_unit [] = tt
every_unit (e ∷ m) = (tt, every_unit m)

given_before : (a : ℕ) {s t : Evidence} → Run s t → a < s.next_address → a < t.next_address
given_before a {s} r less =
    (Run-Holds (λ n. a < n) (λ n e. Unit {0}) (λ n l. omega arith) (λ n e u. tt) (λ n at k l. tt) r
      (less, every_unit s.local_fresh)).0

-- Once a publication of the key has begun, a proof that was there is not there at the end.
Run-publishes :
    (key : Text) (a : ℕ) {s t : Evidence} (r : Run s t)
    → a < s.next_address
    → publishes key r ≡ true
    → IsGone key a t
unfolding publishes
Run-publishes key a done less h = ground arith
Run-publishes key a (begins keys {s} r) less h = elim (Bool-cases (contains key keys)) [
  | inl here ↦ Run-IsGone key a r (begin_local_publication-IsGone key a keys s less here)
  | inr later ↦ Run-publishes key a r (given_before a (begins keys done) less) (ground arith)
]
Run-publishes key a (finishes retention now at keys success r) less h =
    Run-publishes key a r (given_before a (finishes retention now at keys success done) less) h
Run-publishes key a (records retention now keys r) less h =
    Run-publishes key a r (given_before a (records retention now keys done) less) h

stamp_same :
    (x y : Option FreshProof × Bool)
    → stamp x y ≢ 0
    → (p q : FreshProof) × (x ≡ (some p, true))
      × (y ≡ (some q, true))
      × (p.address ≡ q.address)
      × (stamp x y ≡ p.at)
unfolding stamp
stamp_same (some p, true) (some q, true) h = (p, q, refl, refl, ground arith, ground arith)
stamp_same (some p, true) (some q, false) h = ground arith
stamp_same (some p, true) (none, y) h = ground arith
stamp_same (some p, false) y h = ground arith
stamp_same (none, x) y h = ground arith

idle_of :
    (key : Text) (s : Evidence)
    → (local_publication_snapshot key s).1 ≡ true
    → lookup key s.local_publications ≡ none
unfolding local_publication_snapshot
idle_of key s h = elim (Option-cases (lookup key s.local_publications)) [
  | inl idle ↦ idle
  | inr (p, busy) ↦ ground arith
]

proof_of :
    (key : Text) (s : Evidence) → (local_publication_snapshot key s).0 ≡ lookup key s.local_fresh
unfolding local_publication_snapshot
proof_of key s = refl

IsGone-lookup :
    (key : Text) (a : ℕ) (t : Evidence) (q : FreshProof)
    → IsGone key a t
    → lookup key t.local_fresh ≡ some q
    → q.address ≢ a
unfolding IsGone
IsGone-lookup key a t q (less, all) h =
    All-lookup (λ e. e.0 ≡ key → e.1.address ≢ a) key q t.local_fresh all h refl

IsNumbered-lookup :
    (key : Text) (s : Evidence) (p : FreshProof)
    → IsNumbered s
    → lookup key s.local_fresh ≡ some p
    → p.address < s.next_address
unfolding IsNumbered
IsNumbered-lookup key s p (_, all) h =
    All-lookup (λ e. e.1.address < s.next_address) key p s.local_fresh all h

-- A retrieval is stamped only if, from the snapshot before it to the one after it, no publication
-- of its key was under way and none began; the stamp is the time of the proof that was there.
pub stamp-isolated :
    (key : Text) {s t : Evidence} (r : Run s t)
    → IsNumbered s
    → stamp (local_publication_snapshot key s) (local_publication_snapshot key t) ≢ 0
    → (p : FreshProof) × (lookup key s.local_fresh ≡ some p)
      × (lookup key s.local_publications ≡ none)
      × (stamp (local_publication_snapshot key s) (local_publication_snapshot key t) ≡ p.at)
      × (publishes key r ≡ false)
stamp-isolated key {s} {t} r v h =
    let (p, q, before, after, same, at) =
      stamp_same (local_publication_snapshot key s) (local_publication_snapshot key t) h in
    let there : lookup key s.local_fresh ≡ some p = sym (proof_of key s) ∙ ap (λ w. w.0) before in
    let still : lookup key t.local_fresh ≡ some q = sym (proof_of key t) ∙ ap (λ w. w.0) after in
    (
      p,
      there,
      idle_of key s (ap (λ w. w.1) before),
      at,
      elim (Bool-cases (publishes key r)) [
        | inr quiet ↦ quiet
        | inl began ↦
            let less = IsNumbered-lookup key s p v there in
            let gone = Run-publishes key p.address r less began in
            let differs = IsGone-lookup key p.address t q gone still in ground arith
      ],
    )
