-- ===== src/Delivery/Defs.antt =====
-- handler.go: responseStreamer; conditional_response.go: copyValidationTrailers.
--
-- The wrapped writer's header map and what it has sent are part of the state. The pipe to the cache
-- carries the same chunks as the client gets.
use httpcache_kit.Common.{
  ℕ, Bool, true, false, ◌&&◌, ◌||◌, not, Option, none, some, is_some, List, [], ◌∷◌, ◌++◌, Text,
  codes, text_key, nat_eq, insert, delete, equal_fold, ◌==◌, if◌then◌else◌,
}
use httpcache_kit.Http.Headers.{Headers, get, combined_header_values}
use httpcache_kit.Keys.Defs.{Request, parse_vary}
use httpcache_kit.Policy.Storage.{can_convey_staging}
use httpcache_kit.Records.Defs.{after_prefix}
use httpcache_kit.Validation.Defs.{values}

-- What a client receives: a status with its header, and parts of a body.
pub data Sent : Type 0 where
  head : ℕ → Headers → Sent
  chunk : Text → Sent

pub record Streamer : Type 0 where
  -- the header map of the wrapped writer
  pub live : Headers
  pub sent : List Sent
  pub status_code : ℕ
  -- headerOnce and commitOnce
  pub published : Bool
  pub committed : Bool
  pub defer_headers : Bool
  pub retain_header : Bool
  pub buffered_header : Option Headers
  pub response_header : Headers
  pub client_header : Option Headers
  pub staging_trailer : Bool

abbrev pub or_header : Option Headers → Headers → Headers
or_header none h = h
or_header (some own) h = own

abbrev pub is_passed_on : Streamer → Bool
is_passed_on rw = not rw.defer_headers || rw.retain_header || rw.committed

-- Header, and what is left of it when its caller has changed it to `h`.
unfoldable pub header_map : Streamer → Headers
header_map rw = if is_passed_on rw then rw.live else or_header rw.buffered_header rw.live

unfoldable pub set_header_map : Headers → Streamer → Streamer
set_header_map h rw =
    if is_passed_on rw then record rw { live = h } else record rw { buffered_header = some h }

-- CommitHeaders. A deferred commit replaces the wrapped map's fields.
unfoldable pub commit_headers : Streamer → Streamer
commit_headers rw =
    let header =
      if rw.defer_headers then or_header rw.client_header rw.response_header else rw.live in
    if rw.committed then rw else record rw {
      live = header;
      sent = rw.sent ++ (head rw.status_code header ∷ []);
      committed = true;
    }

-- WriteHeader, up to its wait for the commit.
unfoldable pub write_header : ℕ → Streamer → Streamer
write_header status rw =
    let first = record rw {
      status_code = status;
      response_header = header_map rw;
      published = true;
    } in
    if rw.published then rw else if rw.defer_headers then first else commit_headers first

-- The origin's handler waits between a deferred WriteHeader and the commit.
unfoldable pub is_waiting : Streamer → Bool
is_waiting rw = rw.published && rw.defer_headers && not rw.committed

-- Write: the header first, then the bytes once the wait is over.
unfoldable pub push : Text → Streamer → Streamer
push bytes rw = record rw { sent = rw.sent ++ (chunk bytes ∷ []) }

unfoldable pub write : Text → Streamer → Streamer
write bytes rw = push bytes (write_header 200 rw)

unfoldable pub close : Streamer → Streamer
close rw = write_header 200 rw

-- Header.Add
unfoldable pub add_field : Text → Text → Headers → Headers
add_field name value h = insert name (values name h ++ (value ∷ [])) h

-- HTTP/1.1 trailers need chunked framing.
unfoldable pub chunked : ℕ → Headers → Headers
chunked proto_major h =
    let bare = delete (codes "Content-Length") h in
    if not (proto_major == 1)
    then h
    else if equal_fold (get (codes "Transfer-Encoding") bare) (codes "identity")
    then delete (codes "Transfer-Encoding") bare
    else bare

unfoldable pub staging_header : Request → Text → Bool → Headers → Headers
staging_header r status trailer h =
    let marked = insert (codes "X-Cache") (status ∷ []) h in
    if trailer
    then chunked r.proto_major (add_field (codes "Trailer") (codes "X-Cache-Staging") marked)
    else marked

unfoldable pub commit_staging_headers : Request → Text → Bool → Streamer → Streamer
commit_staging_headers r status admitted rw =
    let trailer = admitted && can_convey_staging r rw.status_code in
    let shown = if admitted then status else codes "SKIP" in
    if not rw.defer_headers
    then rw
    else commit_headers (record rw {
      client_header = some (staging_header r shown trailer rw.response_header);
      staging_trailer = trailer;
    })

unfoldable pub copy_named : List Text → Headers → Headers → Headers
copy_named [] final dst = dst
copy_named (name ∷ names) final dst =
    copy_named names final
      (elim (values name final) [ [] ↦ dst | line ∷ lines ↦ insert name (line ∷ lines) dst ])

unfoldable pub copy_prefixed : Headers → Headers → Headers
copy_prefixed [] dst = dst
copy_prefixed ((name, lines) ∷ final) dst =
    copy_prefixed final
      (if is_some (after_prefix (codes "Trailer:") name) then insert name lines dst else dst)

unfoldable pub copy_validation_trailers : Headers → Headers → Headers → Headers
copy_validation_trailers dst final initial =
    copy_prefixed final
      (copy_named (parse_vary (combined_header_values initial (codes "Trailer"))) final dst)

unfoldable pub finish_staging : Text → Streamer → Streamer
finish_staging status rw =
    let trailers =
      copy_validation_trailers (header_map rw) (or_header rw.buffered_header [])
        rw.response_header in
    let rw' = if rw.defer_headers && not rw.retain_header then set_header_map trailers rw else rw in
    if rw.staging_trailer
    then set_header_map (insert (codes "X-Cache-Staging") (status ∷ []) (header_map rw')) rw'
    else rw'

-- newResponseStreamer, with deferHeaders and retainHeader as the caller sets them.
unfoldable pub new_response_streamer : Bool → Bool → Headers → Streamer
new_response_streamer defer_headers retain_header live = record {
  live = live;
  sent = [];
  status_code = 0;
  published = false;
  committed = false;
  defer_headers = defer_headers;
  retain_header = retain_header;
  buffered_header = none;
  response_header = [];
  client_header = none;
  staging_trailer = false;
}

-- What the origin's handler calls.
pub data Call : Type 0 where
  set_fields : Headers → Call
  set_status : ℕ → Call
  send : Text → Call

unfoldable pub serve_one : Call → Streamer → Streamer
serve_one (set_fields h) rw = set_header_map h rw
serve_one (set_status status) rw = write_header status rw
serve_one (send bytes) rw = write bytes rw

-- The whole response of an origin's handler, with the Close behind it.
unfoldable pub serve : List Call → Streamer → Streamer
serve [] rw = close rw
serve (call ∷ calls) rw = serve calls (serve_one call rw)
