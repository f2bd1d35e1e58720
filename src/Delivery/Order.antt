-- ===== src/Delivery/Order.antt =====
-- handler.go: responseStreamer between two goroutines, the origin's handler and the cache's.
use httpcache_kit.Common.{
  ℕ, ◌≡◌, refl, Bool, true, false, ◌&&◌, ◌||◌, not, some, List, [], ◌∷◌, ◌++◌, Text, codes, nat_eq,
  ◌==◌, arith, Bool-cases, inl, inr, if◌then◌else◌, insert, text_key,
}
use httpcache_kit.Http.Headers.{Headers}
use httpcache_kit.Keys.Defs.{Request}
use httpcache_kit.Policy.Storage.{can_convey_staging}
use httpcache_kit.Delivery.Visible.{write_header_published}
use httpcache_kit.Delivery.Defs.{
  Sent, head, chunk, Streamer, or_header, header_map, set_header_map, commit_headers, write_header,
  is_waiting, push, write, close, commit_staging_headers, finish_staging, new_response_streamer,
  copy_validation_trailers, staging_header,
}

-- What either side may do next. The origin's handler is held while its deferred header waits; the
-- cache's side acts once the header is published.
pub data Step (r : Streamer) : Streamer → Type 0 where
  fields : (h : Headers) → is_waiting r ≡ false → Step r (set_header_map h r)
  status : (code : ℕ) → is_waiting r ≡ false → Step r (write_header code r)
  part : (bytes : Text) → is_waiting (write_header 200 r) ≡ false → Step r (write bytes r)
  ended : is_waiting r ≡ false → Step r (close r)
  commit : r.published ≡ true → Step r (commit_headers r)
  stage :
      (req : Request) (outcome : Text) (admitted : Bool)
      → r.published ≡ true
      → Step r (commit_staging_headers req outcome admitted r)
  mark : (h : Headers) → r.published ≡ true → Step r (set_header_map h r)
  finish : (outcome : Text) → r.published ≡ true → Step r (finish_staging outcome r)

pub data Reach (start : Streamer) : Streamer → Type 0 where
  here : Reach start start
  next : {r s : Streamer} → Reach start r → Step r s → Reach start s

abbrev pub are_parts : List Sent → Bool
are_parts [] = true
are_parts (head code h ∷ sent) = false
are_parts (chunk bytes ∷ sent) = are_parts sent

-- One header with the status, and then only parts of a body.
abbrev pub starts_with : ℕ → List Sent → Bool
starts_with code [] = false
starts_with code (head c h ∷ sent) = (c == code) && are_parts sent
starts_with code (chunk bytes ∷ sent) = false

abbrev pub is_silent : List Sent → Bool
is_silent [] = true
is_silent (x ∷ sent) = false

-- Before the commit the client has seen nothing; behind it, one header with the published status
-- and parts of the body. Without deferral, publication and commit are one.
unfoldable pub is_ordered : Streamer → Bool
is_ordered r =
    if r.committed
    then r.published && starts_with r.status_code r.sent
    else is_silent r.sent && (r.defer_headers || not r.published)

are_parts-append :
    (sent : List Sent) (bytes : Text)
    → are_parts sent ≡ true
    → are_parts (sent ++ (chunk bytes ∷ [])) ≡ true
are_parts-append [] bytes p = refl
are_parts-append (head code h ∷ sent) bytes p = ground arith
are_parts-append (chunk b ∷ sent) bytes p = are_parts-append sent bytes p

starts_with-append :
    (code : ℕ) (sent : List Sent) (bytes : Text)
    → starts_with code sent ≡ true
    → starts_with code (sent ++ (chunk bytes ∷ [])) ≡ true
starts_with-append code [] bytes p = ground arith
starts_with-append code (head c h ∷ sent) bytes p = ground (arith, are_parts-append sent bytes)
starts_with-append code (chunk b ∷ sent) bytes p = ground arith

silent_nil : (sent : List Sent) → is_silent sent ≡ true → sent ≡ []
silent_nil [] p = refl
silent_nil (x ∷ sent) p = ground arith

commit_headers_again : (r : Streamer) → r.committed ≡ true → commit_headers r ≡ r
unfolding commit_headers
commit_headers_again r c = ground arith

-- What a first commit sends.
abbrev delivered : Streamer → Headers
delivered r = if r.defer_headers then or_header r.client_header r.response_header else r.live

commit_headers_first :
    (r : Streamer)
    → r.committed ≡ false
    → commit_headers r ≡ record r {
      live = delivered r;
      sent = r.sent ++ (head r.status_code (delivered r) ∷ []);
      committed = true;
    }
unfolding commit_headers
commit_headers_first r c = ground arith

-- A published header makes a first commit, and what follows it, ordered.
commit_headers-ordered :
    (r : Streamer)
    → r.published ≡ true
    → (r.committed ≡ true → is_ordered r ≡ true)
    → (r.committed ≡ false → is_silent r.sent ≡ true)
    → is_ordered (commit_headers r) ≡ true
unfolding is_ordered
commit_headers-ordered r p done silent = elim (Bool-cases r.committed) [
  | inl c ↦ rw (commit_headers_again r c) (done c)
  | inr c ↦
      let empty = silent_nil r.sent (silent c) in
      let own = (nat_eq.same_iff r.status_code r.status_code).1 refl in
      rw (commit_headers_first r c, empty) (ground arith)
]

-- The state behind a first WriteHeader, before any commit.
abbrev opened : ℕ → Streamer → Streamer
opened code r = record r { status_code = code; response_header = header_map r; published = true }

write_header_deferred :
    (code : ℕ) (r : Streamer)
    → r.published ≡ false
    → r.defer_headers ≡ true
    → write_header code r ≡ opened code r
unfolding write_header
write_header_deferred code r p d = ground arith

write_header_direct :
    (code : ℕ) (r : Streamer)
    → r.published ≡ false
    → r.defer_headers ≡ false
    → write_header code r ≡ commit_headers (opened code r)
unfolding write_header
write_header_direct code r p d = ground arith

write_header-ordered :
    (code : ℕ) (r : Streamer) → is_ordered r ≡ true → is_ordered (write_header code r) ≡ true
write_header-ordered code r v = elim (Bool-cases r.published) [
  | inl p ↦ rw (write_header_published code r p) v
  | inr p ↦
      let silent : is_silent r.sent ≡ true = unfold is_ordered in ground arith in
      let fresh : r.committed ≡ false = unfold is_ordered in ground arith in
      elim (Bool-cases r.defer_headers) [
        | inl d ↦
            let waiting : is_ordered (opened code r) ≡ true = unfold is_ordered in ground arith in
            rw (write_header_deferred code r p d) waiting
        | inr d ↦ rw (write_header_direct code r p d) (
            commit_headers-ordered (opened code r) refl (λ c. unfold is_ordered in ground arith)
              (λ c. silent))
      ]
]

set_header_map-ordered :
    (h : Headers) (r : Streamer) → is_ordered (set_header_map h r) ≡ is_ordered r
unfolding set_header_map is_ordered
set_header_map-ordered h r = ground arith

set_header_map_published :
    (h : Headers) (r : Streamer) → (set_header_map h r).published ≡ r.published
unfolding set_header_map
set_header_map_published h r = ground arith

published-write_header : (code : ℕ) (r : Streamer) → (write_header code r).published ≡ true
unfolding write_header commit_headers
published-write_header code r = ground arith

write-ordered :
    (bytes : Text) (r : Streamer)
    → is_ordered r ≡ true
    → is_waiting (write_header 200 r) ≡ false
    → is_ordered (write bytes r) ≡ true
unfolding write push is_waiting
write-ordered bytes r v free =
    let w = write_header 200 r in
    let p = published-write_header 200 r in
    let ordered = write_header-ordered 200 r v in
    let c : w.committed ≡ true = unfold is_ordered in ground arith in
    let shape : starts_with w.status_code w.sent ≡ true = unfold is_ordered in ground arith in
    unfold is_ordered in rw (c, p) (starts_with-append w.status_code w.sent bytes shape)

commit-ordered :
    (r : Streamer) → is_ordered r ≡ true → r.published ≡ true → is_ordered (commit_headers r) ≡ true
commit-ordered r v p = commit_headers-ordered r p (λ c. v) (λ c. unfold is_ordered in ground arith)

commit_staging_headers-ordered :
    (req : Request) (outcome : Text) (admitted : Bool) (r : Streamer)
    → is_ordered r ≡ true
    → r.published ≡ true
    → is_ordered (commit_staging_headers req outcome admitted r) ≡ true
unfolding commit_staging_headers
commit_staging_headers-ordered req outcome admitted r v p =
    let trailer = admitted && can_convey_staging req r.status_code in
    let r' : Streamer = record r {
      client_header = some (
          staging_header req (if admitted then outcome else codes "SKIP") trailer
            r.response_header);
      staging_trailer = trailer;
    } in
    let ordered : is_ordered r' ≡ true = unfold is_ordered in v in
    ground (arith, commit-ordered r' ordered p)

finish_staging-ordered :
    (outcome : Text) (r : Streamer) → is_ordered (finish_staging outcome r) ≡ is_ordered r
unfolding finish_staging
finish_staging-ordered outcome r =
    let trailers =
      copy_validation_trailers (header_map r) (or_header r.buffered_header []) r.response_header in
    let r' = if r.defer_headers && not r.retain_header then set_header_map trailers r else r in
    ground (
      arith,
      set_header_map-ordered trailers r,
      set_header_map-ordered (insert (codes "X-Cache-Staging") (outcome ∷ []) (header_map r')) r',
    )

Step-ordered : (r s : Streamer) → Step r s → is_ordered r ≡ true → is_ordered s ≡ true
Step-ordered r s (fields h free) v = rw (set_header_map-ordered h r) v
Step-ordered r s (status code free) v = write_header-ordered code r v
Step-ordered r s (part bytes free) v = write-ordered bytes r v free
Step-ordered r s (ended free) v = unfold close in write_header-ordered 200 r v
Step-ordered r s (commit p) v = commit-ordered r v p
Step-ordered r s (stage req outcome admitted p) v =
    commit_staging_headers-ordered req outcome admitted r v p
Step-ordered r s (mark h p) v = rw (set_header_map-ordered h r) v
Step-ordered r s (finish outcome p) v = rw (finish_staging-ordered outcome r) v

new_response_streamer-ordered :
    (deferred retain : Bool) (live : Headers)
    → is_ordered (new_response_streamer deferred retain live) ≡ true
unfolding is_ordered new_response_streamer
new_response_streamer-ordered deferred retain live = ground arith

-- Whatever the origin's handler and the cache do, in any order: before the commit the client has
-- seen nothing, behind it one header, with the published status, and then only parts of the body.
pub Reach-ordered :
    (deferred retain : Bool) (live : Headers) (r : Streamer)
    → Reach (new_response_streamer deferred retain live) r
    → is_ordered r ≡ true
Reach-ordered deferred retain live r here = new_response_streamer-ordered deferred retain live
Reach-ordered deferred retain live r (next {r = q} before step) =
    Step-ordered q r step (Reach-ordered deferred retain live q before)
