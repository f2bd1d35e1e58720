-- ===== src/Flights/Leaders.antt =====
-- handler.go: claimMiss and finishMiss, beginWrite and Shutdown, over the events of many requests.
use httpcache_kit.Common.{
  ℕ, ◌≤◌, ◌≡◌, refl, true, false, some, List, [], ◌∷◌, lookup, ◌==◌, nat_eq, text_key, Text, arith,
  Bool-cases, Option-cases, inl, inr, lookup-insert, lookup-delete, text_eqb_iff,
}
use httpcache_kit.Flights.Defs.{
  Flights, claim_miss, finish_miss, begin_write, end_write, begin_shutdown, Event, claims, finishes,
  begins, ends, shuts, apply, run, finishes_flight,
}

apply_keeps_flight :
    (key : Text) (flight : ℕ) (e : Event) (s : Flights)
    → lookup key s.flights ≡ some flight
    → finishes_flight key flight (e ∷ []) ≡ false
    → lookup key (apply e s).flights ≡ some flight
unfolding apply finishes_flight claim_miss finish_miss begin_write end_write begin_shutdown
apply_keeps_flight key flight (claims k) s h kept = elim (Option-cases (lookup k s.flights)) [
  | inr (f, taken) ↦ rw (apply, claim_miss, taken) h
  | inl free ↦
      rw (apply, claim_miss, free)
        (ground (arith, lookup-insert k key s.next_flight s.flights, text_eqb_iff k key))
]
apply_keeps_flight key flight (finishes k f) s h kept = elim (Option-cases (lookup k s.flights)) [
  | inl free ↦ rw (apply, finish_miss, free) h
  | inr (g, taken) ↦ elim (Bool-cases (g == f)) [
    | inr other ↦ rw (apply, finish_miss, taken, other) h
    | inl same ↦
        rw (apply, finish_miss, taken, same)
          (ground (arith, lookup-delete k key s.flights, text_eqb_iff k key))
  ]
]
apply_keeps_flight key flight begins s h kept = elim (Bool-cases s.closing) [
  | inl closing ↦ rw (apply, begin_write, closing) h
  | inr active ↦ rw (apply, begin_write, active) h
]
apply_keeps_flight key flight ends s h kept = h
apply_keeps_flight key flight shuts s h kept = h

run_keeps_flight :
    (key : Text) (flight : ℕ) (es : List Event) (s : Flights)
    → lookup key s.flights ≡ some flight
    → finishes_flight key flight es ≡ false
    → lookup key (run es s).flights ≡ some flight
unfolding run finishes_flight
run_keeps_flight key flight [] s h kept = h
run_keeps_flight key flight (claims k ∷ es) s h kept =
    run_keeps_flight key flight es _ (apply_keeps_flight key flight (claims k) s h refl) kept
run_keeps_flight key flight (finishes k f ∷ es) s h kept =
    run_keeps_flight key flight es _
      (apply_keeps_flight key flight (finishes k f) s h (ground arith)) (ground arith)
run_keeps_flight key flight (begins ∷ es) s h kept =
    run_keeps_flight key flight es _ (apply_keeps_flight key flight begins s h refl) kept
run_keeps_flight key flight (ends ∷ es) s h kept =
    run_keeps_flight key flight es _ (apply_keeps_flight key flight ends s h refl) kept
run_keeps_flight key flight (shuts ∷ es) s h kept =
    run_keeps_flight key flight es _ (apply_keeps_flight key flight shuts s h refl) kept

claimed :
    (key : Text) (s : Flights)
    → lookup key (claim_miss key s).1.flights ≡ some (claim_miss key s).0.0
unfolding claim_miss
claimed key s = elim (Option-cases (lookup key s.flights)) [
  | inr (f, taken) ↦ rw (claim_miss, taken) taken
  | inl free ↦
      rw (claim_miss, free)
        (ground (arith, lookup-insert key key s.next_flight s.flights, text_eqb_iff key key))
]

joins :
    (key : Text) (flight : ℕ) (s : Flights)
    → lookup key s.flights ≡ some flight
    → (claim_miss key s).0 ≡ (flight, false)
unfolding claim_miss
joins key flight s h = rw (claim_miss, h) refl

-- Whoever claims a miss, until that flight is finished every other claim of the key joins it and
-- does not lead, whatever else happens in between.
pub claim_miss_led :
    (key : Text) (es : List Event) (s : Flights)
    → finishes_flight key (claim_miss key s).0.0 es ≡ false
    → (claim_miss key (run es (claim_miss key s).1)).0 ≡ ((claim_miss key s).0.0, false)
claim_miss_led key es s kept =
    joins key _ _ (run_keeps_flight key (claim_miss key s).0.0 es _ (claimed key s) kept)

closing_apply :
    (e : Event) (s : Flights)
    → s.closing ≡ true
    → ((apply e s).closing ≡ true) × ((apply e s).writes ≤ s.writes)
unfolding apply finish_miss claim_miss begin_write end_write begin_shutdown
closing_apply (claims k) s h = elim (Option-cases (lookup k s.flights)) [
  | inl free ↦ rw (apply, claim_miss, free) (h, omega arith)
  | inr (f, taken) ↦ rw (apply, claim_miss, taken) (h, omega arith)
]
closing_apply (finishes k f) s h = elim (Option-cases (lookup k s.flights)) [
  | inl free ↦ rw (apply, finish_miss, free) (h, omega arith)
  | inr (g, taken) ↦ elim (Bool-cases (g == f)) [
    | inl same ↦ rw (apply, finish_miss, taken, same) (h, omega arith)
    | inr other ↦ rw (apply, finish_miss, taken, other) (h, omega arith)
  ]
]
closing_apply begins s h = ground arith
closing_apply ends s h = ground arith
closing_apply shuts s h = ground arith

-- After Shutdown began, no write starts any more and the writes under way never grow in number,
-- whatever requests do.
pub run_closing :
    (es : List Event) (s : Flights)
    → s.closing ≡ true
    → ((begin_write (run es s)).0 ≡ false) × ((run es s).writes ≤ s.writes)
unfolding run begin_write
run_closing [] s h = rw (begin_write, h) (refl, omega arith)
run_closing (e ∷ es) s h =
    let (still, fewer) = closing_apply e s h in
    let (refused, rest) = run_closing es (apply e s) still in (refused, omega arith)
