-- ===== src/Flights/Defs.antt =====
-- handler.go: claimMiss, finishMiss, beginWrite, endWrite and Shutdown.
--
-- A missFlight is the number of its allocation; closing its channel records the number. Each
-- operation is a critical section of flightsMu or lifecycleMu.
use httpcache_kit.Common.{
  ℕ, suc, ◌-◌, ◌+◌, Bool, true, false, ◌&&◌, ◌||◌, none, some, List, [], ◌∷◌, Map, lookup, insert,
  delete, ◌==◌, nat_eq, text_key, Text, if◌then◌else◌,
}

pub record Flights : Type 0 where
  pub flights : Map Text ℕ
  pub closed : List ℕ
  pub next_flight : ℕ
  pub closing : Bool
  pub writes : ℕ

-- The flight of the key, and whether the caller leads it.
unfoldable pub claim_miss : Text → Flights → (ℕ × Bool) × Flights
claim_miss key s = elim (lookup key s.flights) [
  | some flight ↦ ((flight, false), s)
  | none ↦ (
    (s.next_flight, true),
    record s { flights = insert key s.next_flight s.flights; next_flight = suc s.next_flight },
  )
]

unfoldable pub finish_miss : Text → ℕ → Flights → Flights
finish_miss key flight s = elim (lookup key s.flights) [
  | none ↦ s
  | some current ↦
      if current == flight
      then record s { flights = delete key s.flights; closed = flight ∷ s.closed }
      else s
]

-- Whether the write may start.
unfoldable pub begin_write : Flights → Bool × Flights
begin_write s = if s.closing then (false, s) else (true, record s { writes = s.writes + 1 })

unfoldable pub end_write : Flights → Flights
end_write s = record s { writes = s.writes - 1 }

-- Shutdown's first section; it then waits until no write is left, or its context ends.
unfoldable pub begin_shutdown : Flights → Flights
begin_shutdown s = record s { closing = true }

-- What requests and Shutdown do, in any order.
pub data Event : Type 0 where
  claims : Text → Event
  finishes : Text → ℕ → Event
  begins ends shuts : Event

unfoldable pub apply : Event → Flights → Flights
apply (claims key) s = (claim_miss key s).1
apply (finishes key flight) s = finish_miss key flight s
apply begins s = (begin_write s).1
apply ends s = end_write s
apply shuts s = begin_shutdown s

unfoldable pub run : List Event → Flights → Flights
run [] s = s
run (e ∷ es) s = run es (apply e s)

-- The flight of the key is finished by one of the events.
unfoldable pub finishes_flight : Text → ℕ → List Event → Bool
finishes_flight key flight [] = false
finishes_flight key flight (finishes k f ∷ es) =
    (k == key && f == flight) || finishes_flight key flight es
finishes_flight key flight (_ ∷ es) = finishes_flight key flight es
