-- ===== src/Delivery/Conditions.antt =====
-- client_preconditions.go: clientPreconditionWriter, over the client of responseStreamer.
--
-- http.ServeContent decides the conditions and is a parameter: of a request without Range and a
-- header, the status and the header that it writes for an empty content.
use httpcache_kit.Common.{
  ℕ, Bool, true, false, ◌&&◌, ◌||◌, not, Option, none, some, is_some, List, [], ◌∷◌, ◌++◌, Text,
  codes, text_key, nat_eq, insert, delete, lookup, leb, ltb, ◌==◌, if◌then◌else◌,
}
use httpcache_kit.Http.Headers.{Headers, get, is_empty}
use httpcache_kit.Keys.Defs.{Request}
use httpcache_kit.Records.Defs.{after_prefix}
use httpcache_kit.Delivery.Defs.{Sent, head, chunk, copy_validation_trailers}

-- preconditionProbe
pub record Probe : Type 0 where
  pub status : ℕ
  pub header : Headers

pub record PreconditionWriter : Type 0 where
  -- the wrapped writer: its header map, and what it has sent
  pub live : Headers
  pub sent : List Sent
  pub request : Request
  pub header : Headers
  pub suppress : Bool
  pub defer_staging : Bool
  -- pendingStatus and pendingHeader; a status of 0 is none
  pub pending : Option Probe

abbrev lacks : Text → Headers → Bool
lacks name h = is_empty (get name h)

-- The plain writer is used if the request has no condition.
unfoldable pub has_preconditions : Request → Bool
has_preconditions r = not (
    lacks (codes "If-None-Match") r.header
    && lacks (codes "If-Modified-Since") r.header
    && lacks (codes "If-Match") r.header
    && lacks (codes "If-Unmodified-Since") r.header)

unfoldable pub new_writer : Request → Headers → PreconditionWriter
new_writer r live = record {
  live = live;
  sent = [];
  request = r;
  header = live;
  suppress = false;
  defer_staging = false;
  pending = none;
}

unfoldable pub commit_header : ℕ → Headers → PreconditionWriter → PreconditionWriter
commit_header status h w = record w { live = h; sent = w.sent ++ (head status h ∷ []) }

-- Range is for the origin.
unfoldable pub probed : (Request → Headers → Probe) → PreconditionWriter → Probe
probed serve w =
    serve (record w.request { header = delete (codes "Range") w.request.header }) w.header

unfoldable pub suppresses : (Request → Headers → Probe) → ℕ → PreconditionWriter → Bool
suppresses serve status w =
    let answer = (probed serve w).status in
    leb 200 status && ltb status 300 && ((answer == 304) || (answer == 412))

unfoldable pub write_status :
    (Request → Headers → Probe) → ℕ → PreconditionWriter → PreconditionWriter
write_status serve status w =
    let answer = probed serve w in
    let suppress = w.suppress || suppresses serve status w in
    let shown : Probe =
      if suppresses serve status w then answer else record { status = status; header = w.header } in
    let w' = record w { suppress = suppress } in
    if w.defer_staging && suppress
    then record w' { pending = if shown.status == 0 then none else some shown }
    else commit_header shown.status shown.header w'

unfoldable pub defer_staging_headers : PreconditionWriter → PreconditionWriter
defer_staging_headers w = record w { defer_staging = true }

unfoldable pub refresh : List Text → Headers → Headers → Headers
refresh [] live h = h
refresh (name ∷ names) live h =
    refresh names live
      (elim (lookup name live) [ none ↦ delete name h | some lines ↦ insert name lines h ])

unfoldable pub without_prefixed : Headers → Headers
without_prefixed [] = []
without_prefixed ((name, lines) ∷ h) =
    let rest = without_prefixed h in
    if is_some (after_prefix (codes "Trailer:") name) then rest else (name, lines) ∷ rest

-- The header of a response without a body.
unfoldable pub bodyless : Headers → Headers → Headers
bodyless live h =
    let names = codes "X-Cache" ∷ codes "Age" ∷ codes "Proxy-Date" ∷ [] in
    without_prefixed (
      delete (codes "Transfer-Encoding") (
        delete (codes "Content-Length")
          (delete (codes "X-Cache-Staging") (delete (codes "Trailer") (refresh names live h)))))

-- finishTrailers
unfoldable pub finish_trailers : PreconditionWriter → PreconditionWriter
finish_trailers w =
    if w.suppress then w else record w { live = copy_validation_trailers w.live w.header w.header }

unfoldable pub finish_staging_headers : PreconditionWriter → PreconditionWriter
finish_staging_headers w = elim w.pending [
  | none ↦ finish_trailers w
  | some p ↦ commit_header p.status (bodyless w.header p.header) (record w { pending = none })
]

unfoldable pub write_body : Text → PreconditionWriter → PreconditionWriter
write_body bytes w = if w.suppress then w else record w { sent = w.sent ++ (chunk bytes ∷ []) }

-- What the cache's side calls between the status and the end.
pub data Use : Type 0 where
  change : Headers → Use
  body : Text → Use

unfoldable pub use_one : Use → PreconditionWriter → PreconditionWriter
use_one (change h) w = record w { header = h }
use_one (body bytes) w = write_body bytes w

unfoldable pub use_all : List Use → PreconditionWriter → PreconditionWriter
use_all [] w = w
use_all (u ∷ us) w = use_all us (use_one u w)
