-- ===== src/Delivery/Maps.antt =====
-- handler.go: the header maps of responseStreamer as references, which handlers may keep.
use httpcache_kit.Common.{
  ℕ, ◌+◌, Bool, true, false, ◌&&◌, ◌||◌, not, Option, none, some, [], ◌∷◌, Text, codes, text_key,
  nat_eq, insert, ◌==◌, if◌then◌else◌,
}
use httpcache_kit.Http.Headers.{Headers}
use httpcache_kit.Keys.Defs.{Request}
use httpcache_kit.Policy.Storage.{can_convey_staging}
use httpcache_kit.Delivery.Defs.{staging_header, copy_validation_trailers}

-- The maps by their references; those below `fresh` are in use.
pub record Shared : Type 0 where
  pub cell : ℕ → Headers
  pub fresh : ℕ
  pub live : ℕ
  pub status_code : ℕ
  pub published : Bool
  pub committed : Bool
  pub defer_headers : Bool
  pub retain_header : Bool
  pub buffered_header : Option ℕ
  pub response_header : Option ℕ
  pub client_header : Option ℕ
  pub staging_trailer : Bool

abbrev pub put : ℕ → Headers → Shared → Shared
put r h s = record s { cell = λ q. if q == r then h else s.cell q }

-- What a map holds; a nil map holds nothing.
abbrev pub held : Option ℕ → Shared → Headers
held none s = []
held (some r) s = s.cell r

-- http.Header.Clone: a new map, with copies of the values.
unfoldable pub clone : Option ℕ → Shared → ℕ × Shared
clone r s = (s.fresh, put s.fresh (held r s) (record s { fresh = s.fresh + 1 }))

-- Header: the reference that its caller gets.
unfoldable pub header_ref : Shared → ℕ × Shared
unfolding clone
header_ref s =
    let (copy, s') = clone (some s.live) s in
    if not s.defer_headers || s.retain_header || s.committed
    then (s.live, s)
    else elim s.buffered_header [
      | some own ↦ (own, s)
      | none ↦ (copy, record s' { buffered_header = some copy })
    ]

-- CommitHeaders, of a deferred header: the wrapped map takes the fields of the other.
unfoldable pub commit_map : Shared → Shared
commit_map s =
    let shown : Option ℕ = elim s.client_header [
      | none ↦ s.response_header
      | some own ↦ some own
    ] in
    let done = record s { committed = true } in
    if s.committed then s else if s.defer_headers then put s.live (held shown s) done else done

-- WriteHeader.
unfoldable pub publish_map : ℕ → Shared → Shared
unfolding clone header_ref commit_map
publish_map status s =
    let (h, s1) = header_ref (record s { status_code = status; published = true }) in
    let (copy, s2) = clone (some h) s1 in
    let s3 = record s2 { response_header = some copy } in
    if s.published then s else if s.defer_headers then s3 else commit_map s3

-- commitStagingHeaders writes to a clone.
unfoldable pub stage_map : Request → Text → Bool → Shared → Shared
unfolding clone commit_map
stage_map r status admitted s =
    let trailer = admitted && can_convey_staging r s.status_code in
    let shown = if admitted then status else codes "SKIP" in
    let (own, s1) = clone s.response_header s in
    if not s.defer_headers
    then s
    else commit_map (
        put own (staging_header r shown trailer (s1.cell own))
          (record s1 { client_header = some own; staging_trailer = trailer }))

-- finishStaging
unfoldable pub finish_map : Text → Shared → Shared
unfolding header_ref
finish_map status s =
    let (h, s1) = header_ref s in
    let trailers =
      copy_validation_trailers (s1.cell h) (held s1.buffered_header s1)
        (held s1.response_header s1) in
    let s2 = if s.defer_headers && not s.retain_header then put h trailers s1 else s in
    let (k, s3) = header_ref s2 in
    if s.staging_trailer
    then put k (insert (codes "X-Cache-Staging") (status ∷ []) (s3.cell k)) s3
    else s2

-- newResponseStreamer around a writer whose map has the fields `h`.
unfoldable pub new_maps : Bool → Bool → Headers → Shared
new_maps defer retain h = record {
  cell = λ r. h;
  fresh = 1;
  live = 0;
  status_code = 0;
  published = false;
  committed = false;
  defer_headers = defer;
  retain_header = retain;
  buffered_header = none;
  response_header = none;
  client_header = none;
  staging_trailer = false;
}
