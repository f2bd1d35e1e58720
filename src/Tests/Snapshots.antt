-- ===== src/Tests/Snapshots.antt =====
-- A header snapshot, while its handler writes to the map that it kept.
use httpcache_kit.Common.{◌≡◌, refl, true, false, some, [], ◌∷◌, codes, nat_eq}
use httpcache_kit.Http.Headers.{Headers}
use httpcache_kit.Delivery.Maps.{Shared, put, clone, header_ref, publish_map, commit_map, new_maps}
use httpcache_kit.Delivery.Aliases.{here, next, ask, edit_buffered, status, commit, Turns-stays}

-- A handler asks for the buffered map and sets a field, and a status; then it writes to the same map
-- while the header waits for its commit.
abbrev asked : Shared
asked = (header_ref (new_maps true false [])).1

abbrev named : Headers
unfolding codes
named = (codes "Etag", codes "v1" ∷ []) ∷ []

abbrev snapped : Shared
snapped = publish_map 200 (put 1 named asked)

mapping : Unit {0}
unfolding new_maps header_ref clone publish_map commit_map codes
mapping = tt

snapped_fields : snapped.cell 2 ≡ named
unfolding mapping
snapped_fields = refl

Turns-stays_example :
    ((put 1 [] (commit_map snapped)).response_header ≡ some 2)
    × ((put 1 [] (commit_map snapped)).cell 2 ≡ snapped.cell 2)
Turns-stays_example =
    Turns-stays true false [] snapped (put 1 [] (commit_map snapped)) 2
      (next (next (next here ask) (edit_buffered 1 named (unfold mapping in refl))) (status 200))
      (unfold mapping in refl)
      (next (next here commit) (edit_buffered 1 [] (unfold mapping in refl)))
