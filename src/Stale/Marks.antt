-- ===== src/Stale/Marks.antt =====
-- What the markers say after Invalidate and after the age sweep.
use httpcache_kit.Common.{
  max, ℕ, ◌+◌, ◌≡◌, refl, ap, ◌∙◌, String, Bool, true, false, Option, none, some, List, [], ◌∷◌,
  arith, lookup, insert_all, contains, lookup-insert_all, ltb, ◌==◌, nat_eq, string_eq,
  if◌then◌else◌, IsMap,
}
use httpcache_kit.Stale.Defs.{
  Marks, Markers, Outcome, persist_stale, begin_invalidate, finish_invalidate, invalidate, stale_at,
  invalidation_barrier_time, recent, cleanup_stale_map, stale_retention,
}

-- Writing the markers through never changes what the process itself reads.
pub stale-persist_stale :
    (on_disk : Bool) (w : Outcome) (c : Markers) → (persist_stale on_disk w c).stale ≡ c.stale
unfolding persist_stale
stale-persist_stale true w c = refl
stale-persist_stale false w c = refl

-- While Invalidate waits for active writers, each of its keys carries the barrier, which is later
-- than every clock reading before the year 10000; other keys are as they were.
pub stale_at-begin_invalidate :
    (on_disk : Bool) (w : Outcome) (keys : List String) (c : Markers) (j : String)
    → stale_at j (begin_invalidate on_disk w keys c)
      ≡ (if contains j keys then some invalidation_barrier_time else stale_at j c)
unfolding begin_invalidate stale_at
stale_at-begin_invalidate on_disk w keys c j =
    ap (lookup j) (
      stale-persist_stale on_disk w
        (record c { stale = insert_all keys invalidation_barrier_time c.stale }))
    ∙ lookup-insert_all keys j invalidation_barrier_time c.stale

stale_at-finish_invalidate :
    (on_disk : Bool) (w : Outcome) (keys : List String) (now : ℕ) (c : Markers) (j : String)
    → stale_at j (finish_invalidate on_disk w keys now c)
      ≡ (if contains j keys then some now else stale_at j c)
unfolding finish_invalidate stale_at
stale_at-finish_invalidate on_disk w keys now c j =
    ap (lookup j) (stale-persist_stale on_disk w (record c { stale = insert_all keys now c.stale }))
    ∙ lookup-insert_all keys j now c.stale

-- After Invalidate, however its two writes to the backing store end, the given keys carry the time
-- at which it finished and every other key what it carried before.
pub stale_at-invalidate :
    (on_disk : Bool) (w w' : Outcome) (keys : List String) (now : ℕ) (c : Markers) (j : String)
    → stale_at j (invalidate on_disk w w' keys now c)
      ≡ (if contains j keys then some now else stale_at j c)
unfolding invalidate
stale_at-invalidate on_disk w w' [] now c j = unfold contains in refl
stale_at-invalidate on_disk w w' (k ∷ ks) now c j =
    let c' = begin_invalidate on_disk w (k ∷ ks) c in
    ground (
      arith,
      stale_at-finish_invalidate on_disk w' (k ∷ ks) now c' j,
      stale_at-begin_invalidate on_disk w (k ∷ ks) c j,
    )

-- What the age sweep leaves of one marker.
abbrev pub keep_recent : ℕ → ℕ → Option ℕ → Option ℕ
keep_recent retention now none = none
keep_recent retention now (some at) = if ltb (at + retention) now then none else some at

lookup-recent_absent :
    (retention now : ℕ) (k : String) (m : Marks)
    → lookup k m ≡ none
    → lookup k (recent retention now m) ≡ none
unfolding lookup recent
lookup-recent_absent r now k [] p = refl
lookup-recent_absent r now k ((j, at) ∷ m) p = ground (arith, lookup-recent_absent r now k m)

lookup-recent :
    (retention now : ℕ) (k : String) (m : Marks)
    → IsMap m
    → lookup k (recent retention now m) ≡ keep_recent retention now (lookup k m)
unfolding lookup recent
lookup-recent r now k [] v = refl
lookup-recent r now k ((j, at) ∷ m) v =
    ground (arith, lookup-recent r now k m, lookup-recent_absent r now j m, string_eq.same_iff j k)

-- Without a TTL the sweep keeps every marker. With one it removes a marker exactly if it is older
-- than both StaleMapTTL and the TTL; every other marker stays as it was. No key has two markers.
pub stale_at-cleanup_stale_map :
    (on_disk : Bool) (w : Outcome) (ttl stale_map_ttl now : ℕ) (c : Markers) (k : String)
    → IsMap c.stale
    → stale_at k (cleanup_stale_map on_disk w ttl stale_map_ttl now c).0
      ≡ (if ttl == 0 then stale_at k c else keep_recent (max stale_map_ttl ttl) now (stale_at k c))
unfolding cleanup_stale_map stale_at stale_retention
stale_at-cleanup_stale_map on_disk w ttl stale_map_ttl now c k v =
    let r = stale_retention ttl stale_map_ttl in
    ground (
      arith,
      lookup-recent r now k c.stale,
      ap (lookup k) (stale-persist_stale on_disk w (record c { stale = recent r now c.stale })),
    )
