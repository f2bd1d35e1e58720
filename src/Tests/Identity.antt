-- ===== src/Tests/Identity.antt =====
-- The theorems on keys, misses and writes, at concrete requests.
use httpcache_kit.Common.{
  ◌≡◌, refl, ◌≤◌, false, [], ◌∷◌, ◌++◌, Text, codes, contains, nat_eq, text_key, lookup, arith,
}
use httpcache_kit.Keys.Defs.{canonical_url, Key}
use httpcache_kit.Keys.Injective.{key_string_injective}
use httpcache_kit.Flights.Defs.{
  Flights, claims, begins, ends, shuts, claim_miss, begin_write, begin_shutdown, run,
  finishes_flight,
}
use httpcache_kit.Flights.Leaders.{claim_miss_led, run_closing}
use httpcache_kit.Tests.Web.{platform, key, escape}

escape-tail_free : (s : Text) → contains 31 (escape s ++ (34 ∷ [])) ≡ false
unfolding escape contains
escape-tail_free [] = refl
escape-tail_free (b ∷ s) = ground (arith, escape-tail_free s)

escape_inj : (s t : Text) → escape s ++ (34 ∷ []) ≡ escape t ++ (34 ∷ []) → s ≡ t
unfolding escape
escape_inj [] [] p = refl
escape_inj [] (c ∷ t) p = ground arith
escape_inj (b ∷ s) [] p = ground arith
escape_inj (b ∷ s) (c ∷ t) p = ground (arith, escape_inj s t)

quote_inj : (s t : Text) → platform.quote s ≡ platform.quote t → s ≡ t
quote_inj s t p = escape_inj s t (ground arith)

quote_free : (s : Text) → contains 31 (platform.quote s) ≡ false
unfolding contains
quote_free s = escape-tail_free s

abbrev varied : Key
unfolding codes
varied = record key { vary_entries = codes "Accept=missing" ∷ [] }

key_string_injective_example :
    (varied.method ≡ varied.method)
    × (platform.print_url (canonical_url varied.u) ≡ platform.print_url (canonical_url varied.u))
    × (varied.vary_entries ≡ varied.vary_entries)
unfolding contains canonical_url varied
key_string_injective_example =
    key_string_injective platform varied varied quote_inj quote_free refl refl refl refl refl refl
      refl

abbrev idle : Flights
idle = record { flights = []; closed = []; next_flight = 0; closing = false; writes = 2 }

abbrev path : Text
unfolding codes
path = codes "GET:/a"

claim_miss_led_example :
    (claim_miss path (run (begins ∷ claims path ∷ shuts ∷ []) (claim_miss path idle).1)).0
    ≡ (0, false)
unfolding claim_miss lookup finishes_flight
claim_miss_led_example = claim_miss_led path (begins ∷ claims path ∷ shuts ∷ []) idle refl

run_closing_example :
    ((begin_write (run (begins ∷ ends ∷ []) (begin_shutdown idle))).0 ≡ false)
    × ((run (begins ∷ ends ∷ []) (begin_shutdown idle)).writes ≤ 2)
unfolding begin_shutdown
run_closing_example = run_closing (begins ∷ ends ∷ []) (begin_shutdown idle) refl
