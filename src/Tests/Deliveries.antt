-- ===== src/Tests/Deliveries.antt =====
-- The theorems on deliveries, at concrete handlers and clients.
use httpcache_kit.Common.{◌≡◌, refl, true, false, [], ◌∷◌, codes, if◌then◌else◌, text_key}
use httpcache_kit.Http.Headers.{Headers}
use httpcache_kit.Keys.Defs.{Request}
use httpcache_kit.Delivery.Defs.{
  head, chunk, Streamer, header_map, commit_headers, write_header, is_waiting, push, write,
  new_response_streamer, set_status, send, serve,
}
use httpcache_kit.Delivery.Visible.{first_status, first_fields, chunks, sent-serve}
use httpcache_kit.Delivery.Order.{
  Reach, here, next, status, commit, is_ordered, Reach-ordered, part,
}
use httpcache_kit.Delivery.Conditions.{Probe, new_writer, probed, suppresses, bodyless, body}
use httpcache_kit.Delivery.Suppression.{last_header, parts, deliver, sent-deliver}

sent-serve_example :
    (serve
      (send (1 ∷ []) ∷ set_status 404 ∷ send (2 ∷ []) ∷ [])
      (new_response_streamer false false [])).sent
    ≡ head 200 [] ∷ chunk (1 ∷ []) ∷ chunk (2 ∷ []) ∷ []
unfolding first_status first_fields chunks
sent-serve_example = sent-serve (send (1 ∷ []) ∷ set_status 404 ∷ send (2 ∷ []) ∷ []) false []

abbrev start : Streamer
start = new_response_streamer true false []

abbrev published : Streamer
published = write_header 201 start

program : Unit {0}
unfolding new_response_streamer write_header commit_headers header_map is_waiting push write
program = tt

steps : Reach start (write (7 ∷ []) (commit_headers published))
steps =
    next (next (next here (status 201 (unfold program in refl))) (commit (unfold program in refl)))
      (part (7 ∷ []) (unfold program in refl))

Reach-ordered_example : is_ordered (write (7 ∷ []) (commit_headers published)) ≡ true
Reach-ordered_example =
    Reach-ordered true false [] (write (7 ∷ []) (commit_headers published)) steps

abbrev client : Request
unfolding codes
client = record {
  method = codes "GET";
  header = (codes "If-None-Match", codes "v1" ∷ []) ∷ [];
  proto_major = 1;
  proto_minor = 1;
}

-- A content that every client has already.
abbrev unmodified : Request → Headers → Probe
unmodified r h = record { status = 304; header = h }

sent-deliver_example :
    (deliver unmodified true 200 (body (1 ∷ []) ∷ []) (new_writer client [])).sent ≡ (
      if suppresses unmodified 200 (new_writer client [])
      then head (probed unmodified (new_writer client [])).status (
          if true
          then bodyless
              (last_header [] (body (1 ∷ []) ∷ []))
              (probed unmodified (new_writer client [])).header
          else (probed unmodified (new_writer client [])).header)
        ∷ []
      else head 200 [] ∷ parts (body (1 ∷ []) ∷ []))
sent-deliver_example = sent-deliver unmodified true 200 (body (1 ∷ []) ∷ []) client []

held_back : suppresses unmodified 200 (new_writer client []) ≡ true
unfolding suppresses probed new_writer
held_back = refl
