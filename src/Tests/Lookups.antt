-- ===== src/Tests/Lookups.antt =====
-- The theorems on publications and lookups, at a cache with one entry.
use httpcache_kit.Common.{
  ◌≡◌, refl, none, some, true, false, [], ◌∷◌, arith, lookup, insert, delete, codes, contains,
  nat_eq, text_key, Text, equal_fold,
}
use httpcache_kit.Http.Headers.{get, combined_header_values, names_like, sort}
use httpcache_kit.Policy.Resource.{stored_after}
use httpcache_kit.Keys.Defs.{key_string, canonical_url, vary_section, key_namespace}
use httpcache_kit.Publication.Defs.{
  FreshProof, Evidence, begin_all, begin_local_publication, local_publication_snapshot, stamp,
  compact, push, begin_one,
}
use httpcache_kit.Publication.Runs.{begins, done, publishes}
use httpcache_kit.Publication.Isolation.{IsNumbered, stamp-isolated}
use httpcache_kit.Lookup.Defs.{
  found, Backing, lookup_using, lookup_base, finish_lookup, generation_retrieve,
  resource_fresh_after, stale_time, mark_invalidated_resource, judged,
}
use httpcache_kit.Lookup.Outcome.{lookup_using_current, governing}
use httpcache_kit.Tests.Web.{platform, request, response}
use httpcache_kit.Tests.Decisions.{fresh_headers}

abbrev stored_key : Text
unfolding codes
stored_key = codes "GET:/a"

abbrev other_key : Text
unfolding codes
other_key = codes "GET:/b"

abbrev proved : Evidence
proved = record {
  local_stale = (stored_key, 5) ∷ [];
  local_fresh = (stored_key, record { address = 0; at = 7 }) ∷ [];
  local_publications = [];
  next_address = 1;
}

proved-IsNumbered : IsNumbered proved
unfolding IsNumbered
proved-IsNumbered = (tt, (omega arith, tt))

-- A publication of another key begins while the entry is retrieved.
abbrev busy : Evidence
busy = begin_local_publication (other_key ∷ []) proved

program : Unit {0}
unfolding lookup insert delete codes contains get combined_header_values names_like sort
    stored_after key_string canonical_url vary_section key_namespace begin_all
    begin_local_publication local_publication_snapshot stamp publishes lookup_using lookup_base
    finish_lookup generation_retrieve resource_fresh_after stale_time mark_invalidated_resource
    governing judged equal_fold compact push begin_one
program = tt

busy-stamped :
    stamp
      (local_publication_snapshot stored_key proved)
      (local_publication_snapshot stored_key busy)
    ≡ 7
unfolding program
busy-stamped = refl

stamp-isolated_example :
    (p : FreshProof) × (lookup stored_key proved.local_fresh ≡ some p)
    × (lookup stored_key proved.local_publications ≡ none)
    × (stamp
          (local_publication_snapshot stored_key proved)
          (local_publication_snapshot stored_key busy)
        ≡ p.at)
    × (publishes stored_key (begins (other_key ∷ []) {s = proved} done) ≡ false)
stamp-isolated_example =
    stamp-isolated stored_key (begins (other_key ∷ []) done) proved-IsNumbered
      (λ z. ground (arith, busy-stamped))

-- A cache that stored its entry at 7 and had the key invalidated at 5.
abbrev single : Backing
single = record {
  World = Unit {0};
  evidence = λ w. proved;
  retrieve = λ key w. (found (response fresh_headers 7 0), tt);
  checker = some (λ key w. some 5);
}

lookup_using_current_example :
    resource_fresh_after platform single (response fresh_headers 7 0) 5 ≡ true
unfolding program
lookup_using_current_example =
    lookup_using_current platform single true (request []) tt (response fresh_headers 7 0)
      stored_key 5 refl refl refl refl
