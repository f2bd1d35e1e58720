-- ===== src/Stale/Writes.antt =====
-- cache.go: what a series of persistStale leaves for the next start, whichever writes fail.
use httpcache_kit.Common.{
  ℕ, ◌+◌, ◌<◌, ◌≤◌, ◌%◌, ◌^◌, ◌≡◌, refl, ap, ◌∙◌, Bool, true, false, Option, none, some, List, [],
  ◌∷◌, length, arith, nat_eq,
}
use httpcache_kit.Stale.Defs.{
  Marks, Markers, Files, malformed, snapshot, Outcome, refused, torn, unconfirmed, complete,
  persist_stale, vfs_write, atomic_write, write_slot, read_slot, candidate, best, is_complete,
}
use httpcache_kit.Stale.Journal.{
  IsJournal, age, slot_age, best_of_newest, candidate_snapshot, other_slot, slot_age_ne,
  slot_age_self, read-write_slot, read-write_slot_ne, next_small,
}

-- Markers are set and written, again and again.
abbrev pub writes : Bool → List (Marks × Outcome) → Markers → Markers
writes on_disk [] c = c
writes on_disk ((m, w) ∷ ws) c =
    writes on_disk ws (persist_stale on_disk w (record c { stale = m }))

-- The markers of the last write that was confirmed, and those of a later one whose bytes are all in
-- place though it was not.
pub record View : Type 0 where
  pub confirmed : Marks
  pub pending : Option Marks

abbrev pub survivor : View → Marks
survivor v = elim v.pending [ none ↦ v.confirmed | some m ↦ m ]

-- A file that cannot be opened stays as it is. On disk nothing is renamed that was not confirmed;
-- in the journal a later write goes over the one that is pending.
abbrev pub settle : Bool → Outcome → Marks → View → View
settle on_disk complete m v = record { confirmed = m; pending = none }
settle on_disk refused m v = v
settle true torn m v = v
settle true unconfirmed m v = v
settle false torn m v = record v { pending = none }
settle false unconfirmed m v = record v { pending = some m }

abbrev pub settle_all : Bool → List (Marks × Outcome) → View → View
settle_all on_disk [] v = v
settle_all on_disk ((m, w) ∷ ws) v = settle_all on_disk ws (settle on_disk w m v)

abbrev IsOther : ℕ → Files → Option Marks → Type 0
IsOther g f none = slot_age ((g + 1) % 2) f < g
IsOther g f (some m) = candidate (read_slot ((g + 1) % 2) f) ≡ some (g + 1, m)

-- What the two slots hold.
record Shows (v : View) (c : Markers) : Type 0 where
  positive : 0 < c.generation
  current : candidate (read_slot (c.generation % 2) c.files) ≡ some (c.generation, v.confirmed)
  other : IsOther c.generation c.files v.pending

age_of :
    (g n : ℕ) (m : Marks) (f : Files) → candidate (read_slot n f) ≡ some (g, m) → slot_age n f ≡ g
age_of g n m f p = ap age p

confirmed_stays :
    (g : ℕ) (m : Marks) (f : Files) (n : ℕ) (new : Marks)
    → candidate (read_slot (g % 2) f) ≡ some (g, m)
    → (candidate (read_slot (g % 2) (write_slot ((g + 1) % 2) (snapshot n (some new)) f))
        ≡ some (g, m))
      × (candidate (read_slot (g % 2) (write_slot ((g + 1) % 2) malformed f)) ≡ some (g, m))
confirmed_stays g m f n new p = (
  ap candidate (
        read-write_slot_ne ((g + 1) % 2) (g % 2) (snapshot n (some new)) f (omega arith)
          (omega arith) (other_slot g).0)
      ∙ p,
  ap candidate (
        read-write_slot_ne ((g + 1) % 2) (g % 2) malformed f (omega arith) (omega arith)
          (other_slot g).0)
      ∙ p,
)

written :
    (g : ℕ) (m : Marks) (f : Files)
    → candidate (read_slot ((g + 1) % 2) (write_slot ((g + 1) % 2) (snapshot (g + 1) (some m)) f))
      ≡ some (g + 1, m)
written g m f =
    ap candidate (read-write_slot ((g + 1) % 2) (snapshot (g + 1) (some m)) f (omega arith))
    ∙ candidate_snapshot (g + 1) m (omega arith)

persist_stale-Shows :
    (w : Outcome) (m : Marks) (v : View) (c : Markers)
    → c.generation + 1 < 2 ^ 64
    → Shows v c
    → Shows (settle false w m v) (persist_stale false w (record c { stale = m }))
unfolding persist_stale vfs_write is_complete
persist_stale-Shows refused m v c small i = record {
  positive = i.positive;
  current = i.current;
  other = i.other;
}
persist_stale-Shows torn m v c small i = rw (next_small c.generation small) (record {
  positive = i.positive;
  current = (confirmed_stays c.generation v.confirmed c.files 0 m i.current).1;
  other =
      unfold candidate in omega (arith, i.positive, slot_age_self c.generation malformed c.files);
})
persist_stale-Shows unconfirmed m v c small i = rw (next_small c.generation small) (record {
  positive = i.positive;
  current = (confirmed_stays c.generation v.confirmed c.files (c.generation + 1) m i.current).0;
  other = written c.generation m c.files;
})
persist_stale-Shows complete m v c small i =
    let g = c.generation in
    let s = snapshot (g + 1) (some m) in
    let old = age_of g (g % 2) v.confirmed c.files i.current in
    rw (next_small g small) (record {
      positive = omega arith;
      current = written g m c.files;
      other = rw (other_slot g).1 (omega (arith, slot_age_ne g s c.files, old));
    })

best-Shows : (v : View) (c : Markers) → Shows v c → (g : ℕ) × (best c.files ≡ some (g, survivor v))
best-Shows v c i = held v.pending i.other
  where
    held :
        (pending : Option Marks)
        → IsOther c.generation c.files pending
        → (g : ℕ) × (best c.files ≡ some (g, survivor (record v { pending = pending })))
    held none older =
        (c.generation, best_of_newest c.generation v.confirmed c.files i.current older)
    held (some m) newer =
        let old = age_of c.generation (c.generation % 2) v.confirmed c.files i.current in
        (
          c.generation + 1,
          best_of_newest (c.generation + 1) m c.files newer
              (rw (other_slot c.generation).1 (omega (arith, old))),
        )

generation-persist_stale :
    (w : Outcome) (c : Markers)
    → c.generation + 1 < 2 ^ 64
    → (persist_stale false w c).generation ≤ c.generation + 1
unfolding persist_stale is_complete
generation-persist_stale refused c small = omega arith
generation-persist_stale torn c small = omega arith
generation-persist_stale unconfirmed c small = omega arith
generation-persist_stale complete c small = omega (arith, next_small c.generation small)

writes-Shows :
    (ws : List (Marks × Outcome)) (v : View) (c : Markers)
    → c.generation + length ws < 2 ^ 64
    → Shows v c
    → Shows (settle_all false ws v) (writes false ws c)
writes-Shows [] v c small i = i
writes-Shows ((m, w) ∷ ws) v c small i =
    let next = record c { stale = m } in
    writes-Shows ws (settle false w m v) (persist_stale false w next)
      (omega (arith, generation-persist_stale w next (omega arith)))
      (persist_stale-Shows w m v c (omega arith) i)

-- What the journal holds once a write was confirmed, and others followed.
pub best-writes :
    (m : Marks) (ws : List (Marks × Outcome)) (c : Markers)
    → IsJournal c
    → c.generation + 1 + length ws < 2 ^ 64
    → (g : ℕ) × (best (writes false ((m, complete) ∷ ws) c).files
        ≡ some (g, survivor (settle_all false ws (record { confirmed = m; pending = none }))))
unfolding persist_stale vfs_write is_complete
best-writes m ws c v small =
    let start : View = record { confirmed = m; pending = none } in
    let s = snapshot (c.generation + 1) (some m) in
    let first = persist_stale false complete (record c { stale = m }) in
    let shown : Shows start first = rw (next_small c.generation v.small) (record {
      positive = omega arith;
      current = written c.generation m c.files;
      other =
          rw (other_slot c.generation).1
            (omega (arith, slot_age_ne c.generation s c.files, v.current));
    }) in
    best-Shows (settle_all false ws start) (writes false ws first) (
      writes-Shows ws start first (omega (arith, generation-persist_stale complete c (omega arith)))
        shown)

-- The snapshot on disk.
whole-writes_from :
    (ws : List (Marks × Outcome)) (m : Marks) (c : Markers)
    → c.files.whole ≡ some m
    → (writes true ws c).files.whole
      ≡ some (survivor (settle_all true ws (record { confirmed = m; pending = none })))
unfolding persist_stale atomic_write is_complete
whole-writes_from [] m c held = held
whole-writes_from ((n, refused) ∷ ws) m c held =
    whole-writes_from ws m (persist_stale true refused (record c { stale = n })) held
whole-writes_from ((n, torn) ∷ ws) m c held =
    whole-writes_from ws m (persist_stale true torn (record c { stale = n })) held
whole-writes_from ((n, unconfirmed) ∷ ws) m c held =
    whole-writes_from ws m (persist_stale true unconfirmed (record c { stale = n })) held
whole-writes_from ((n, complete) ∷ ws) m c held =
    whole-writes_from ws n (persist_stale true complete (record c { stale = n })) refl

pub whole-writes :
    (m : Marks) (ws : List (Marks × Outcome)) (c : Markers)
    → (writes true ((m, complete) ∷ ws) c).files.whole
      ≡ some (survivor (settle_all true ws (record { confirmed = m; pending = none })))
unfolding persist_stale atomic_write is_complete
whole-writes m ws c =
    whole-writes_from ws m (persist_stale true complete (record c { stale = m })) refl
