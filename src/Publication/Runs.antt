-- ===== src/Publication/Runs.antt =====
-- handler_publication.go: runs of publications and invalidations, and the proofs along them.
use httpcache_kit.Common.{
  ℕ, suc, ◌-◌, Bool, true, false, ◌&&◌, ◌||◌, not, List, [], ◌∷◌, Map, lookup, contains, ltb, ◌==◌,
  nat_eq, text_key, Text, All, Bool-cases, Option-cases, inl, inr, All-delete, All-insert,
}
use httpcache_kit.Http.Headers.{sort}
use httpcache_kit.Publication.Defs.{
  FreshProof, Evidence, compact, begin_one, begin_all, begin_local_publication, recent_proofs,
  prove, finish_one, finish_all, finish_local_publication, record_stale,
}

-- What the handler does to its evidence, in any order that its requests bring about.
pub data Run : Evidence → Evidence → Type 0 where
  done : {s : Evidence} → Run s s
  begins : (keys : List Text) {s t : Evidence} → Run (begin_local_publication keys s) t → Run s t
  finishes :
      (retention now at : ℕ) (keys : List Text) (success : Bool) {s t : Evidence}
      → Run (finish_local_publication retention now at keys success s) t
      → Run s t
  records :
      (retention now : ℕ) (keys : List Text) {s t : Evidence}
      → Run (record_stale retention now keys s) t
      → Run s t

-- A publication of the key began during the run.
unfoldable pub publishes : Text → {s t : Evidence} → Run s t → Bool
publishes key done = false
publishes key (begins keys r) = contains key keys || publishes key r
publishes key (finishes _ _ _ _ _ r) = publishes key r
publishes key (records _ _ _ r) = publishes key r

All-recent_proofs :
    (Q : Text × FreshProof → Type 0) (cutoff : ℕ) (m : Map Text FreshProof)
    → All Q m
    → All Q (recent_proofs cutoff m)
unfolding recent_proofs
All-recent_proofs Q cutoff [] _ = tt
All-recent_proofs Q cutoff ((k, q) ∷ m) (here, rest) = elim (Bool-cases (ltb q.at cutoff)) [
  | inl old ↦ rw old (All-recent_proofs Q cutoff m rest)
  | inr kept ↦ rw kept (here, All-recent_proofs Q cutoff m rest)
]

-- A condition on the next address and a property of the proofs that a new proof does not disturb.
module _ (C : ℕ → Type 0) (Q : ℕ → Text × FreshProof → Type 0) (next : (n : ℕ) → C n → C (suc n))
    (weaken : (n : ℕ) (e : Text × FreshProof) → Q n e → Q (suc n) e)
    (new : (n at : ℕ) (key : Text) → C n → Q (suc n) (key, record { address = n; at = at })) where
  abbrev pub Holds : Evidence → Type 0
  Holds s = C s.next_address × All (Q s.next_address) s.local_fresh

  All-weaken : (n : ℕ) (m : Map Text FreshProof) → All (Q n) m → All (Q (suc n)) m
  All-weaken n [] _ = tt
  All-weaken n (e ∷ m) (here, rest) = (weaken n e here, All-weaken n m rest)

  pub begin_all-Holds : (keys : List Text) (s : Evidence) → Holds s → Holds (begin_all keys s)
  unfolding begin_all begin_one
  begin_all-Holds [] s h = h
  begin_all-Holds (key ∷ keys) s (c, all) =
      begin_all-Holds keys (begin_one key s)
        (c, All-delete (Q s.next_address) key s.local_fresh all)

  prove-Holds :
      (key : Text) (at : ℕ) (granted : Bool) (s : Evidence)
      → Holds s
      → Holds (prove key at granted s)
  unfolding prove
  prove-Holds key at false s h = h
  prove-Holds key at true s (c, all) = (
    next s.next_address c,
    All-insert (Q (suc s.next_address)) key (record { address = s.next_address; at = at })
        s.local_fresh (new s.next_address at key c) (All-weaken s.next_address s.local_fresh all),
  )

  finish_one-Holds :
      (at : ℕ) (success : Bool) (key : Text) (s : Evidence)
      → Holds s
      → Holds (finish_one at success key s)
  unfolding finish_one
  finish_one-Holds at success key s h = elim (Option-cases (lookup key s.local_publications)) [
    | inl idle ↦ rw (idle, finish_one) h
    | inr (p, busy) ↦ elim (Bool-cases ((p.active - 1) == 0)) [
      | inr others ↦ rw (busy, finish_one, others) h
      | inl last ↦ rw (busy, finish_one, last) (prove-Holds key at (success && not p.overlap) _ h)
    ]
  ]

  finish_all-Holds :
      (at : ℕ) (success : Bool) (keys : List Text) (s : Evidence)
      → Holds s
      → Holds (finish_all at success keys s)
  unfolding finish_all
  finish_all-Holds at success [] s h = h
  finish_all-Holds at success (key ∷ keys) s h =
      finish_all-Holds at success keys (finish_one at success key s)
        (finish_one-Holds at success key s h)

  pub Run-Holds : {s t : Evidence} → Run s t → Holds s → Holds t
  unfolding begin_local_publication finish_local_publication record_stale
  Run-Holds done h = h
  Run-Holds (begins keys r) h = Run-Holds r (begin_all-Holds (compact (sort keys)) _ h)
  Run-Holds (finishes retention now at keys success r) (c, all) = Run-Holds r (
      finish_all-Holds at success (compact (sort keys)) _
        (c, All-recent_proofs _ (now - retention) _ all))
  Run-Holds (records retention now keys r) (c, all) =
      Run-Holds r (c, All-recent_proofs _ (now - retention) _ all)
