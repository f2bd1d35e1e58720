-- ===== src/Stale/Defs.antt =====
-- cache.go: Invalidate, persistStale, loadStale, restoreStale, StaleAt, StaleSnapshot and
-- cleanupStaleMap.
--
-- What a slot file holds is its JSON value, or what is left of it: JSON and RFC 3339 with
-- nanoseconds keep keys and times, so the encoding is not modelled. How a write to the backing
-- store ends is an argument of each operation that writes.
use httpcache_kit.Common.{
  ℕ, ◌+◌, ◌%◌, ◌^◌, String, Bool, true, false, ◌||◌, Option, none, some, List, [], ◌∷◌, Map, lookup,
  insert, insert_all, ltb, ◌==◌, nat_eq, string_eq, is_some, if◌then◌else◌, max,
}

-- 9999-12-31T23:59:59.999999999Z, in nanoseconds since year 1.
abbrev pub invalidation_barrier_time : ℕ
invalidation_barrier_time = 315537897599999999999

abbrev pub Marks : Type 0
Marks = Map String ℕ

-- A file of the journal. `Markers` may be JSON's null.
pub data Slot : Type 0 where
  absent malformed : Slot
  snapshot : ℕ → Option Marks → Slot

-- The backing store's marker files; the slots are numbered by `generation % 2`.
pub record Files : Type 0 where
  pub slot_zero : Slot
  pub slot_one : Slot
  pub whole : Option Marks

-- How writing one file ends. `refused`: the file could not be opened, and is as before. `torn`: it
-- was truncated and holds a strict prefix, which does not decode. `unconfirmed`: all bytes are in
-- place and closing it failed. `complete`: no error.
pub data Outcome : Type 0 where
  refused torn unconfirmed complete : Outcome

pub record Markers : Type 0 where
  pub stale : Marks
  pub generation : ℕ
  pub files : Files

unfoldable pub read_slot : ℕ → Files → Slot
read_slot n f = if n == 0 then f.slot_zero else f.slot_one

unfoldable pub write_slot : ℕ → Slot → Files → Files
write_slot n s f = if n == 0 then record f { slot_zero = s } else record f { slot_one = s }

-- vfsWrite of one slot.
unfoldable pub vfs_write : Outcome → ℕ → ℕ → Marks → Files → Files
unfolding write_slot
vfs_write refused n g m f = f
vfs_write torn n g m f = write_slot n malformed f
vfs_write unconfirmed n g m f = write_slot n (snapshot g (some m)) f
vfs_write complete n g m f = write_slot n (snapshot g (some m)) f

unfoldable pub is_complete : Outcome → Bool
is_complete complete = true
is_complete _ = false

-- atomicWriteFile: a failure before the rename leaves the old file.
unfoldable pub atomic_write : Outcome → Marks → Files → Files
unfolding is_complete
atomic_write w m f = if is_complete w then record f { whole = some m } else f

-- The generation is a uint64.
abbrev pub next_generation : ℕ → ℕ
next_generation g = (g + 1) % 2 ^ 64

-- `on_disk` is `c.diskRoot != ""`. The snapshot is the whole map, under staleMutex.
unfoldable pub persist_stale : Bool → Outcome → Markers → Markers
unfolding vfs_write atomic_write is_complete
persist_stale on_disk w c =
    if on_disk
    then record c { files = atomic_write w c.stale c.files }
    else let g = next_generation c.generation in
      record c {
        files = vfs_write w (g % 2) g c.stale c.files;
        generation = if is_complete w then g else c.generation;
      }

-- The visible barrier that Invalidate sets before it waits for active writers.
unfoldable pub begin_invalidate : Bool → Outcome → List String → Markers → Markers
unfolding persist_stale
begin_invalidate on_disk w keys c =
    persist_stale on_disk w (record c { stale = insert_all keys invalidation_barrier_time c.stale })

-- The timestamp that judges the entries for good.
unfoldable pub finish_invalidate : Bool → Outcome → List String → ℕ → Markers → Markers
unfolding persist_stale
finish_invalidate on_disk w keys now c =
    persist_stale on_disk w (record c { stale = insert_all keys now c.stale })

unfoldable pub invalidate : Bool → Outcome → Outcome → List String → ℕ → Markers → Markers
unfolding begin_invalidate finish_invalidate
invalidate on_disk w w' [] now c = c
invalidate on_disk w w' (k ∷ ks) now c =
    finish_invalidate on_disk w' (k ∷ ks) now (begin_invalidate on_disk w (k ∷ ks) c)

unfoldable pub stale_at : String → Markers → Option ℕ
stale_at key c = lookup key c.stale

unfoldable pub stale_snapshot : List String → Marks → Marks
stale_snapshot [] m = []
stale_snapshot (k ∷ ks) m =
    let rest = stale_snapshot ks m in elim (lookup k m) [ none ↦ rest | some at ↦ insert k at rest ]

-- One candidate of loadStale: `Generation == 0 || Markers == nil` is ignored.
unfoldable pub candidate : Slot → Option (ℕ × Marks)
candidate (snapshot g (some m)) = if g == 0 then none else some (g, m)
candidate _ = none

unfoldable pub newer : Option (ℕ × Marks) → Option (ℕ × Marks) → Option (ℕ × Marks)
newer none c = c
newer (some b) none = some b
newer (some b) (some c) = if ltb b.0 c.0 then some c else some b

unfoldable pub best : Files → Option (ℕ × Marks)
unfolding candidate newer read_slot
best f = newer (candidate (read_slot 0 f)) (candidate (read_slot 1 f))

unfoldable pub recover : ℕ → ℕ → ℕ
recover now at = if at == invalidation_barrier_time then now else at

-- The loop of restoreStale, and whether it recovered a barrier.
unfoldable pub restore_marks : ℕ → Marks → Marks → Marks
unfolding recover
restore_marks now [] stale = stale
restore_marks now ((k, at) ∷ rest) stale =
    restore_marks now rest
      (if is_some (lookup k stale) then stale else insert k (recover now at) stale)

unfoldable pub has_barrier : Marks → Bool
has_barrier [] = false
has_barrier ((k, at) ∷ rest) = (at == invalidation_barrier_time) || has_barrier rest

unfoldable pub restore : Bool → Outcome → ℕ → Marks → Markers → Markers
unfolding restore_marks has_barrier persist_stale
restore on_disk w now m c =
    let c' = record c { stale = restore_marks now m c.stale } in
    if has_barrier m then persist_stale on_disk w c' else c'

unfoldable pub load_whole : Bool → Outcome → ℕ → Markers → Markers
unfolding restore
load_whole on_disk w now c = elim c.files.whole [ none ↦ c | some m ↦ restore on_disk w now m c ]

unfoldable pub load_stale : Bool → Outcome → ℕ → Markers → Markers
unfolding best restore load_whole
load_stale true w now c = load_whole true w now c
load_stale false w now c = elim (best c.files) [
  | none ↦ load_whole false w now c
  | some (g, m) ↦ restore false w now m (record c { generation = g })
]

-- staleRetention: 0 keeps every marker.
unfoldable pub stale_retention : ℕ → ℕ → ℕ
stale_retention ttl stale_map_ttl = if ttl == 0 then 0 else max stale_map_ttl ttl

-- The markers that are not before the cutoff.
unfoldable pub recent : ℕ → ℕ → Marks → Marks
recent retention now [] = []
recent retention now ((k, at) ∷ m) =
    let rest = recent retention now m in if ltb (at + retention) now then rest else (k, at) ∷ rest

unfoldable pub removed_marks : ℕ → ℕ → Marks → ℕ
removed_marks retention now [] = 0
removed_marks retention now ((k, at) ∷ m) =
    (if ltb (at + retention) now then 1 else 0) + removed_marks retention now m

unfoldable pub cleanup_stale_map : Bool → Outcome → ℕ → ℕ → ℕ → Markers → Markers × ℕ
unfolding stale_retention recent removed_marks persist_stale
cleanup_stale_map on_disk w ttl stale_map_ttl now c =
    let retention = stale_retention ttl stale_map_ttl in
    let removed = removed_marks retention now c.stale in
    let c' = record c { stale = recent retention now c.stale } in
    if retention == 0
    then (c, 0)
    else if removed == 0
    then (c', 0)
    else (persist_stale on_disk w c', removed)

-- Purge's last step, once no entry is left.
unfoldable pub purge_marks : Bool → Outcome → Markers → Markers
unfolding persist_stale
purge_marks on_disk w c = persist_stale on_disk w (record c { stale = [] })
