-- ===== src/Stale/Restart.antt =====
-- cache.go: what loadStale finds after Invalidate, finished or not.
use httpcache_kit.Common.{
  ℕ, ◌+◌, ◌<◌, ◌^◌, ◌≡◌, ◌≢◌, refl, ap, ◌∙◌, String, true, false, Option, none, some, List, [], ◌∷◌,
  arith, lookup, insert, insert_all, lookup-insert, lookup-insert_all, contains, nat_eq, string_eq,
  if◌then◌else◌, is_some, Bool, length,
}
use httpcache_kit.Stale.Defs.{
  Marks, Markers, Files, Outcome, complete, persist_stale, begin_invalidate, invalidate, stale_at,
  invalidation_barrier_time, recover, restore_marks, restore, load_stale, best, load_whole,
}
use httpcache_kit.Stale.Marks.{stale-persist_stale, stale_at-begin_invalidate}
use httpcache_kit.Stale.Journal.{IsJournal, persist_stale-IsJournal}
use httpcache_kit.Stale.Writes.{writes, survivor, settle_all, best-writes, whole-writes}

abbrev pub recovered : ℕ → Option ℕ → Option ℕ
recovered now none = none
recovered now (some at) = some (recover now at)

lookup-restore_marks :
    (now : ℕ) (j : String) (m stale : Marks)
    → lookup j (restore_marks now m stale)
      ≡ (if is_some (lookup j stale) then lookup j stale else recovered now (lookup j m))
unfolding restore_marks lookup
lookup-restore_marks now j [] stale = ground arith
lookup-restore_marks now j ((k, at) ∷ m) stale = ground (
  arith,
  lookup-restore_marks now j m stale,
  lookup-restore_marks now j m (insert k (recover now at) stale),
  lookup-insert k j (recover now at) stale,
  string_eq.same_iff k j,
)

lookup-restore_marks_fresh :
    (now : ℕ) (j : String) (m : Marks)
    → lookup j (restore_marks now m []) ≡ recovered now (lookup j m)
unfolding lookup
lookup-restore_marks_fresh now j m = lookup-restore_marks now j m []

-- A new process over the files that an old one left.
abbrev pub reopen : Files → Markers
reopen f = record { stale = []; generation = 0; files = f }

-- What a restarted process reads of the newest snapshot.
stale_at-load_stale :
    (w : Outcome) (later g : ℕ) (m : Marks) (f : Files) (j : String)
    → best f ≡ some (g, m)
    → stale_at j (load_stale false w later (reopen f)) ≡ recovered later (lookup j m)
unfolding load_stale restore stale_at
stale_at-load_stale w later g m f j p =
    let c' = record (reopen f) { generation = g; stale = restore_marks later m [] } in
    rw p (
      ground (
        arith,
        ap (lookup j) (stale-persist_stale false w c'),
        lookup-restore_marks_fresh later j m,
      ))

recover_now : (later at : ℕ) → at ≢ invalidation_barrier_time → recover later at ≡ at
unfolding recover
recover_now later at h = ground arith

recover_barrier : (later : ℕ) → recover later invalidation_barrier_time ≡ later
unfolding recover
recover_barrier later = refl

unfolded : (c : Markers) (j : String) → stale_at j c ≡ lookup j c.stale
unfolding stale_at
unfolded c j = refl

-- What a restarted process reads of the snapshot on disk.
stale_at-load_stale_whole :
    (w : Outcome) (later : ℕ) (m : Marks) (f : Files) (j : String)
    → f.whole ≡ some m
    → stale_at j (load_stale true w later (reopen f)) ≡ recovered later (lookup j m)
unfolding load_stale load_whole restore stale_at
stale_at-load_stale_whole w later m f j p =
    let c' = record (reopen f) { stale = restore_marks later m [] } in
    rw p (
      ground (
        arith,
        ap (lookup j) (stale-persist_stale true w c'),
        lookup-restore_marks_fresh later j m,
      ))

-- Behind a confirmed write on either backend, whatever writes followed, however they ended and
-- whatever markers they had, a restart reads the markers of the last one that was confirmed; or, in
-- the journal, those of a later one, if all bytes of it are in place, closing the file failed and no
-- write tore that file since. A leftover barrier becomes the restart's time. The journal is in order
-- before, and its generations are not used up.
pub restart_after_writes :
    (on_disk : Bool) (w : Outcome) (m : Marks) (ws : List (Marks × Outcome)) (later : ℕ)
    (c : Markers) (j : String)
    → (on_disk ≡ false → IsJournal c)
    → (on_disk ≡ false → c.generation + 1 + length ws < 2 ^ 64)
    → stale_at j (load_stale on_disk w later (reopen (writes on_disk ((m, complete) ∷ ws) c).files))
      ≡ recovered later
          (lookup j (survivor (settle_all on_disk ws (record { confirmed = m; pending = none }))))
restart_after_writes true w m ws later c j ordered small =
    stale_at-load_stale_whole w later
      (survivor (settle_all true ws (record { confirmed = m; pending = none })))
      (writes true ((m, complete) ∷ ws) c).files j (whole-writes m ws c)
restart_after_writes false w m ws later c j ordered small =
    let (g, read) = best-writes m ws c (ordered refl) (small refl) in
    stale_at-load_stale w later g
      (survivor (settle_all false ws (record { confirmed = m; pending = none })))
      (writes false ((m, complete) ∷ ws) c).files j read

reload :
    (on_disk : Bool) (w : Outcome) (later : ℕ) (c : Markers) (j : String)
    → (on_disk ≡ false → IsJournal c)
    → stale_at j (load_stale on_disk w later (reopen (persist_stale on_disk complete c).files))
      ≡ recovered later (lookup j c.stale)
reload on_disk w later c j v =
    restart_after_writes on_disk w c.stale [] later c j v
      (λ journal. let order = v journal in let room = order.small in omega arith)

abbrev mark_all : List String → ℕ → Markers → Markers
mark_all keys at c = record c { stale = insert_all keys at c.stale }

mark_all-IsJournal :
    (keys : List String) (at : ℕ) (c : Markers) → IsJournal c → IsJournal (mark_all keys at c)
mark_all-IsJournal keys at c v = record { current = v.current; other = v.other; small = v.small }

begin_lem :
    (on_disk : Bool) (w : Outcome) (keys : List String) (c : Markers)
    → begin_invalidate on_disk w keys c
      ≡ persist_stale on_disk w (mark_all keys invalidation_barrier_time c)
unfolding begin_invalidate
begin_lem on_disk w keys c = refl

begin_invalidate-IsJournal :
    (on_disk : Bool) (w : Outcome) (keys : List String) (c : Markers)
    → (on_disk ≡ false → IsJournal c)
    → (on_disk ≡ false → c.generation + 2 < 2 ^ 64)
    → on_disk ≡ false
    → IsJournal (begin_invalidate on_disk w keys c)
begin_invalidate-IsJournal true w keys c v small journal = ground arith
begin_invalidate-IsJournal false w keys c v small journal = rw begin_lem (
    persist_stale-IsJournal w (mark_all keys invalidation_barrier_time c)
      (mark_all-IsJournal keys invalidation_barrier_time c (v refl)) (small refl))

invalidate_lem :
    (on_disk : Bool) (w : Outcome) (k : String) (ks : List String) (now : ℕ) (c : Markers)
    → invalidate on_disk w complete (k ∷ ks) now c
      ≡ persist_stale on_disk complete
          (mark_all (k ∷ ks) now (begin_invalidate on_disk w (k ∷ ks) c))
unfolding invalidate
invalidate_lem on_disk w k ks now c = refl

-- A restart after an Invalidate whose last write was complete, on either backend: each of its keys
-- carries the time at which it finished, and every other key what it carried, a leftover barrier
-- becoming the restart's time. The write of the barrier may have ended in any way. On a backend
-- without renames the journal is in order and its generations are not used up, and the time is no
-- barrier.
pub restart_after_invalidate :
    (on_disk : Bool) (w w' : Outcome) (k : String) (ks : List String) (now later : ℕ) (c : Markers)
    (j : String)
    → (on_disk ≡ false → IsJournal c)
    → (on_disk ≡ false → c.generation + 2 < 2 ^ 64)
    → now ≢ invalidation_barrier_time
    → stale_at j
        (load_stale on_disk w' later (reopen (invalidate on_disk w complete (k ∷ ks) now c).files))
      ≡ (if contains j (k ∷ ks) then some now else recovered later (stale_at j c))
restart_after_invalidate on_disk w w' k ks now later c j v small h =
    let keys = k ∷ ks in
    let c2 = begin_invalidate on_disk w keys c in
    rw invalidate_lem (
      reload on_disk w' later (mark_all keys now c2) j (λ journal.
        mark_all-IsJournal keys now c2
          (begin_invalidate-IsJournal on_disk w keys c v small journal))
      ∙ ground (
        arith,
        lookup-insert_all keys j now c2.stale,
        stale_at-begin_invalidate on_disk w keys c j,
        recover_now later now h,
        unfolded c2 j,
      ))

-- A crash while Invalidate waits for active writers, once its barrier is written, on either
-- backend: the keys come back carrying the restart's time, which is after everything that the old
-- process stored. On a backend without renames the journal is in order.
pub restart_after_barrier :
    (on_disk : Bool) (w' : Outcome) (keys : List String) (later : ℕ) (c : Markers) (j : String)
    → (on_disk ≡ false → IsJournal c)
    → contains j keys ≡ true
    → stale_at j
        (load_stale on_disk w' later (reopen (begin_invalidate on_disk complete keys c).files))
      ≡ some later
restart_after_barrier on_disk w' keys later c j v h = rw begin_lem (
    reload on_disk w' later (mark_all keys invalidation_barrier_time c) j
      (λ journal. mark_all-IsJournal keys invalidation_barrier_time c (v journal))
    ∙ rw (lookup-insert_all, h) (ap some (recover_barrier later)))
