-- ===== src/Delivery/Aliases.antt =====
-- handler.go: who may change the header snapshot of responseStreamer.
use httpcache_kit.Common.{
  ℕ, ◌≡◌, refl, ◌∙◌, Bool, true, ◌&&◌, not, Option, none, some, Text, ltb, is_some, nat_eq, ◌==◌,
  arith, if◌then◌else◌,
}
use httpcache_kit.Http.Headers.{Headers}
use httpcache_kit.Keys.Defs.{Request}
use httpcache_kit.Delivery.Maps.{
  Shared, put, clone, header_ref, commit_map, publish_map, stage_map, finish_map, new_maps,
}

-- What the goroutines do, in any order. A handler may keep each map that Header gave it, the
-- wrapped writer's or the buffered one, and write to it whenever it likes.
pub data Turn (s : Shared) : Shared → Type 0 where
  ask : Turn s (header_ref s).1
  edit_live : (h : Headers) → Turn s (put s.live h s)
  edit_buffered : (b : ℕ) (h : Headers) → s.buffered_header ≡ some b → Turn s (put b h s)
  status : (code : ℕ) → Turn s (publish_map code s)
  commit : Turn s (commit_map s)
  stage : (r : Request) (outcome : Text) (admitted : Bool) → Turn s (stage_map r outcome admitted s)
  finish : (outcome : Text) → Turn s (finish_map outcome s)

pub data Turns (start : Shared) : Shared → Type 0 where
  here : Turns start start
  next : {r s : Shared} → Turns start r → Turn r s → Turns start s

abbrev below : Option ℕ → ℕ → Bool
below none n = true
below (some r) n = ltb r n

abbrev differs : Option ℕ → Option ℕ → Bool
differs (some p) (some q) = not (p == q)
differs _ _ = true

-- The snapshot is a map of its own.
abbrev is_apart : Shared → Bool
is_apart s =
    ltb s.live s.fresh
    && below s.buffered_header s.fresh
    && below s.response_header s.fresh
    && differs s.response_header (some s.live)
    && differs s.response_header s.buffered_header
    && (if is_some s.response_header then s.published else true)

-- Still apart, with the same snapshot.
abbrev Keeps : Shared → Shared → Type 0
Keeps s t =
    (is_apart t ≡ true)
    × ((p : ℕ) → s.response_header ≡ some p → (t.response_header ≡ some p) × (t.cell p ≡ s.cell p))

header_ref-Keeps : (s : Shared) → is_apart s ≡ true → Keeps s (header_ref s).1
unfolding header_ref clone
header_ref-Keeps s apart = (ground arith, λ p e. ground arith)

commit_map-Keeps : (s : Shared) → is_apart s ≡ true → Keeps s (commit_map s)
unfolding commit_map
commit_map-Keeps s apart = (ground arith, λ p e. ground arith)

publish_map-Keeps : (code : ℕ) (s : Shared) → is_apart s ≡ true → Keeps s (publish_map code s)
unfolding publish_map header_ref clone commit_map
publish_map-Keeps code s apart = (ground arith, λ p e. ground arith)

stage_map-Keeps :
    (r : Request) (outcome : Text) (admitted : Bool) (s : Shared)
    → is_apart s ≡ true
    → Keeps s (stage_map r outcome admitted s)
unfolding stage_map clone commit_map
stage_map-Keeps r outcome admitted s apart = (ground arith, λ p e. ground arith)

finish_map-Keeps :
    (outcome : Text) (s : Shared) → is_apart s ≡ true → Keeps s (finish_map outcome s)
unfolding finish_map header_ref clone
finish_map-Keeps outcome s apart = (ground arith, λ p e. ground arith)

edit_live-Keeps : (h : Headers) (s : Shared) → is_apart s ≡ true → Keeps s (put s.live h s)
edit_live-Keeps h s apart = (ground arith, λ p e. ground arith)

edit_buffered-Keeps :
    (b : ℕ) (h : Headers) (s : Shared)
    → s.buffered_header ≡ some b
    → is_apart s ≡ true
    → Keeps s (put b h s)
edit_buffered-Keeps b h s own apart = (ground arith, λ p e. ground arith)

Turn-Keeps : (s t : Shared) → Turn s t → is_apart s ≡ true → Keeps s t
Turn-Keeps s t ask apart = header_ref-Keeps s apart
Turn-Keeps s t (edit_live h) apart = edit_live-Keeps h s apart
Turn-Keeps s t (edit_buffered b h own) apart = edit_buffered-Keeps b h s own apart
Turn-Keeps s t (status code) apart = publish_map-Keeps code s apart
Turn-Keeps s t commit apart = commit_map-Keeps s apart
Turn-Keeps s t (stage r outcome admitted) apart = stage_map-Keeps r outcome admitted s apart
Turn-Keeps s t (finish outcome) apart = finish_map-Keeps outcome s apart

Turns-Keeps : (s t : Shared) → Turns s t → is_apart s ≡ true → Keeps s t
Turns-Keeps s t here apart = (apart, λ p e. (e, refl))
Turns-Keeps s t (next {r = q} before turn) apart =
    let first = Turns-Keeps s q before apart in
    let last = Turn-Keeps q t turn first.0 in
    (
      last.0,
      λ p e.
          let there = first.1 p e in let still = last.1 p there.0 in (still.0, still.1 ∙ there.1),
    )

-- Once WriteHeader has made the header snapshot of a streamer, no order of what the goroutines do
-- changes it: it stays the same map with the same fields, whatever handlers write to the maps that
-- Header ever gave them, before the commit or behind it, and whatever the commit, a staging outcome
-- and trailers write to the client's header.
pub Turns-stays :
    (defer retain : Bool) (h : Headers) (s t : Shared) (p : ℕ)
    → Turns (new_maps defer retain h) s
    → s.response_header ≡ some p
    → Turns s t
    → (t.response_header ≡ some p) × (t.cell p ≡ s.cell p)
unfolding new_maps
Turns-stays defer retain h s t p before made after =
    (Turns-Keeps s t after (Turns-Keeps (new_maps defer retain h) s before refl).0).1 p made
