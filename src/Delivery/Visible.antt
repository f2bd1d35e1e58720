-- ===== src/Delivery/Visible.antt =====
-- handler.go: what a client sees of a response, and when.
use mathlib.Core.List.{append_assoc, append-nil}
use httpcache_kit.Common.{
  ℕ, ◌≡◌, refl, sym, ◌∙◌, Bool, true, false, List, [], ◌∷◌, ◌++◌, nat_eq, arith,
}
use httpcache_kit.Http.Headers.{Headers}
use httpcache_kit.Delivery.Defs.{
  Sent, head, chunk, Streamer, header_map, set_header_map, commit_headers, write_header, push,
  write, close, new_response_streamer, Call, set_fields, set_status, send, serve_one, serve,
}

-- What a response without any deferral is: the status and the fields that were set before the
-- header went out, by the first status or the first part of the body, and all parts of the body.
unfoldable pub first_status : List Call → ℕ
first_status [] = 200
first_status (set_fields h ∷ calls) = first_status calls
first_status (set_status status ∷ calls) = status
first_status (send bytes ∷ calls) = 200

unfoldable pub first_fields : Headers → List Call → Headers
first_fields live [] = live
first_fields live (set_fields h ∷ calls) = first_fields h calls
first_fields live (set_status status ∷ calls) = live
first_fields live (send bytes ∷ calls) = live

unfoldable pub chunks : List Call → List Sent
chunks [] = []
chunks (set_fields h ∷ calls) = chunks calls
chunks (set_status status ∷ calls) = chunks calls
chunks (send bytes ∷ calls) = chunk bytes ∷ chunks calls

-- A second header changes nothing.
pub write_header_published :
    (status : ℕ) (r : Streamer) → r.published ≡ true → write_header status r ≡ r
unfolding write_header
write_header_published status r p = ground arith

set_header_map_direct :
    (h : Headers) (r : Streamer)
    → r.defer_headers ≡ false
    → set_header_map h r ≡ record r { live = h }
unfolding set_header_map
set_header_map_direct h r d = ground arith

serve_committed :
    (calls : List Call) (r : Streamer)
    → r.published ≡ true
    → r.defer_headers ≡ false
    → (serve calls r).sent ≡ r.sent ++ chunks calls
unfolding serve chunks close serve_one write push
serve_committed [] r p d = rw (write_header_published 200 r p) (sym (append-nil r.sent))
serve_committed (set_fields h ∷ calls) r p d =
    rw (serve, serve_one, set_header_map_direct h r d)
      (serve_committed calls (record r { live = h }) p d)
serve_committed (set_status status ∷ calls) r p d =
    rw (serve, serve_one, write_header_published status r p) (serve_committed calls r p d)
serve_committed (send bytes ∷ calls) r p d =
    rw (serve, serve_one, write, write_header_published 200 r p)
      (serve_committed calls (push bytes r) p d
        ∙ append_assoc r.sent (chunk bytes ∷ []) (chunks calls))

abbrev begun : ℕ → Bool → Headers → Streamer
begun status retain live = record (new_response_streamer false retain live) {
  sent = head status live ∷ [];
  status_code = status;
  published = true;
  committed = true;
  response_header = live;
}

-- The first header of a response that is not deferred goes out at once.
write_header_first :
    (status : ℕ) (retain : Bool) (live : Headers)
    → write_header status (new_response_streamer false retain live) ≡ begun status retain live
unfolding write_header new_response_streamer commit_headers header_map
write_header_first status retain live = refl

-- A response that is not deferred reaches the client as its handler gave it, whichever calls the
-- handler makes, none included: one header, with the status and the fields set before the first
-- status or the first part of the body, 200 if there was no status, and then all parts of the body
-- in order.
pub sent-serve :
    (calls : List Call) (retain : Bool) (live : Headers)
    → (serve calls (new_response_streamer false retain live)).sent
      ≡ head (first_status calls) (first_fields live calls) ∷ chunks calls
unfolding serve chunks close serve_one write push first_status first_fields new_response_streamer
sent-serve [] retain live = rw (serve, close, write_header_first 200 retain live) refl
sent-serve (set_fields h ∷ calls) retain live =
    rw (serve, serve_one, set_header_map_direct h (new_response_streamer false retain live) refl)
      (sent-serve calls retain h)
sent-serve (set_status status ∷ calls) retain live =
    rw (serve, serve_one, write_header_first status retain live)
      (serve_committed calls (begun status retain live) refl refl)
sent-serve (send bytes ∷ calls) retain live =
    rw (serve, serve_one, write, write_header_first 200 retain live)
      (serve_committed calls (push bytes (begun 200 retain live)) refl refl)
