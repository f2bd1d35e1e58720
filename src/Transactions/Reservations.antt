-- ===== src/Transactions/Reservations.antt =====
-- cache.go: the reservations of StoreContext, from beginReservation to the deferred release.
use mathlib.Core.Path.{subst}
use httpcache_kit.Common.{
  sym, ℕ, ◌≡◌, Bool, true, false, List, [], ◌∷◌, String, length, All, All-map, All-unmap, arith,
  Bool-cases, inl, inr, nat_eq, ◌==◌, lookup-insert, lookup-delete, contains,
}
use httpcache_kit.Ledger.Defs.{Ledger, is_active, begin_reservation, release_reservation}
use httpcache_kit.Ledger.Admission.{Backed}
use httpcache_kit.Ledger.Invariant.{
  IsLedger, release_reservation-IsLedger, begin_reservation-IsLedger,
}
use httpcache_kit.Stale.Defs.{Outcome}
use httpcache_kit.Cache.Defs.{Cache}
use httpcache_kit.Transactions.Storage.{Storage}
use httpcache_kit.Transactions.Defs.{
  Target, target_of, Prepared, Setting, unique_keys, prepared_entries, response_superseded,
}
use httpcache_kit.Transactions.Store.{
  prepare_all, discard_prepared, begin_all, release_all, publish, store_entries, store_context,
}
use httpcache_kit.Transactions.Preparation.{hashes}
use httpcache_kit.Transactions.Commit.{are_apart}
use httpcache_kit.Transactions.Atomicity.{targets, prepared_entries_names}
use httpcache_kit.Transactions.Stored.{unique_keys_apart, hashes-prepared_entries}
use httpcache_kit.Transactions.Accounts.{
  prepare_all-IsLedger, discard_prepared-IsLedger, publish-IsLedger,
}

release_idle :
    (h k : ℕ) (l : Ledger) → is_active h l ≡ false → is_active h (release_reservation k l) ≡ false
unfolding is_active release_reservation
release_idle h k l idle = ground (arith, lookup-delete k h l.reservations)

released_idle : (h : ℕ) (l : Ledger) → is_active h (release_reservation h l) ≡ false
unfolding is_active release_reservation
released_idle h l = ground (arith, lookup-delete h h l.reservations, nat_eq.same_iff h h)

begun_idle :
    (h : ℕ) (ps : List Prepared) (l : Ledger)
    → contains h (hashes ps) ≡ false
    → All (λ p. is_active p.hashed_key l ≡ false) ps
    → All (λ p. is_active p.hashed_key (begin_reservation h l) ≡ false) ps
unfolding contains is_active begin_reservation
begun_idle h [] l apart idle = tt
begun_idle h (p ∷ ps) l apart idle = (
  ground (arith, lookup-insert h p.hashed_key 0 l.reservations, idle.0),
  begun_idle h ps l (ground arith) idle.1,
)

module _ (S : Storage) (X : Setting) where
  -- A released key has no reservation, and none comes back.
  release_all-IsLedger :
      (ps : List Prepared) (c : Cache S.vfs.State)
      → IsLedger c.backed.ledger
      → IsLedger (release_all S ps c).backed.ledger
  unfolding release_all
  release_all-IsLedger [] c v = v
  release_all-IsLedger (p ∷ ps) c v =
      release_all-IsLedger ps
        (record c {
          backed = record c.backed { ledger = release_reservation p.hashed_key c.backed.ledger };
        })
        (release_reservation-IsLedger p.hashed_key c.backed.ledger v)

  release_all_stays :
      (h : ℕ) (ps : List Prepared) (c : Cache S.vfs.State)
      → is_active h c.backed.ledger ≡ false
      → is_active h (release_all S ps c).backed.ledger ≡ false
  unfolding release_all release_reservation
  release_all_stays h [] c idle = idle
  release_all_stays h (p ∷ ps) c idle =
      release_all_stays h ps
        (record c {
          backed = record c.backed { ledger = release_reservation p.hashed_key c.backed.ledger };
        })
        (release_idle h p.hashed_key c.backed.ledger idle)

  release_all_idle :
      (ps : List Prepared) (c : Cache S.vfs.State)
      → All (λ p. is_active p.hashed_key (release_all S ps c).backed.ledger ≡ false) ps
  unfolding release_all release_reservation
  release_all_idle [] c = tt
  release_all_idle (p ∷ ps) c =
      let c' : Cache S.vfs.State = record c {
        backed = record c.backed { ledger = release_reservation p.hashed_key c.backed.ledger };
      } in
      (
        release_all_stays p.hashed_key ps c' (released_idle p.hashed_key c.backed.ledger),
        release_all_idle ps c',
      )

  begin_all-IsLedger :
      (ps : List Prepared) (c : Backed S.vfs.State)
      → are_apart (hashes ps) ≡ true
      → All (λ p. is_active p.hashed_key c.ledger ≡ false) ps
      → IsLedger c.ledger
      → IsLedger (begin_all S ps c).ledger
  unfolding begin_all are_apart
  begin_all-IsLedger [] c apart idle v = v
  begin_all-IsLedger (p ∷ ps) c apart idle v =
      begin_all-IsLedger ps (record c { ledger = begin_reservation p.hashed_key c.ledger })
        (ground arith) (begun_idle p.hashed_key ps c.ledger (ground arith) idle.1)
        (begin_reservation-IsLedger p.hashed_key c.ledger
          (unfold is_active in ground (arith, idle.0)) v)

  store_entries-IsLedger :
      (w : Outcome) (now : ℕ) (stopped : Bool) (ps : List Prepared) (c : Cache S.vfs.State)
      → are_apart (hashes ps) ≡ true
      → All (λ p. is_active p.hashed_key c.backed.ledger ≡ false) ps
      → IsLedger c.backed.ledger
      → IsLedger (store_entries S X w now stopped ps c).1.backed.ledger
        × All
            (λ p.
              is_active p.hashed_key (store_entries S X w now stopped ps c).1.backed.ledger ≡ false)
            ps
  unfolding store_entries
  store_entries-IsLedger w now stopped ps c apart idle v =
      let begun = begin_all S ps c.backed in
      let prep = prepare_all S X ps begun in
      let c' : Cache S.vfs.State = record c { backed = prep.1 } in
      let kept = prepare_all-IsLedger S X ps begun (begin_all-IsLedger ps c.backed apart idle v) in
      elim (Bool-cases prep.0.0) [
        | inr failed ↦
            let d = discard_prepared S X w now prep.0.1 c' in
            rw failed (
              release_all-IsLedger ps d (discard_prepared-IsLedger S X w now prep.0.1 c' kept),
              release_all_idle ps d,
            )
        | inl ready ↦
            let d = (publish S X w now stopped prep.0.1 c').1 in
            rw ready (
              release_all-IsLedger ps d (publish-IsLedger S X w now stopped prep.0.1 c' kept),
              release_all_idle ps d,
            )
      ]

-- The totals add up, and the keys have no reservations.
abbrev IsSettled : List Target → Ledger → Type 0
IsSettled names l = IsLedger l × All (λ n. is_active n.hashed_key l ≡ false) names

-- A store, however it ends, keeps the ledger's totals in order and leaves no reservation for its
-- keys, which had none when it took their locks.
pub store_context-IsLedger :
    (S : Storage) (X : Setting) (w : Outcome) (now : ℕ) (ended stopped : Bool) (keys : List String)
    (c : Cache S.vfs.State)
    → All (λ n. is_active n.hashed_key c.backed.ledger ≡ false) (targets X now keys)
    → IsLedger c.backed.ledger
    → IsLedger (store_context S X w now ended stopped keys c).1.backed.ledger
      × All
          (λ n.
            is_active n.hashed_key (store_context S X w now ended stopped keys c).1.backed.ledger
            ≡ false)
          (targets X now keys)
unfolding store_context
store_context-IsLedger S X w now ended stopped keys c idle v =
    let unique = unique_keys X.hash_key [] keys in
    let entries = prepared_entries X now unique in
    let apart : are_apart (hashes entries) ≡ true =
      subst (λ hs. are_apart hs ≡ true) (sym (hashes-prepared_entries X now unique))
        (unique_keys_apart X.hash_key [] keys) in
    let idle_at = λ (l : Ledger) (n : Target). is_active n.hashed_key l ≡ false in
    let before =
      All-unmap target_of (idle_at c.backed.ledger) entries
        (subst (All (idle_at c.backed.ledger)) (sym (prepared_entries_names X now unique)) idle) in
    let d = (store_entries S X w now stopped entries c).1 in
    let after = store_entries-IsLedger S X w now stopped entries c apart before v in
    let settled : IsSettled (targets X now keys) d.backed.ledger = (
      after.0,
      subst (All (idle_at d.backed.ledger)) (prepared_entries_names X now unique)
          (All-map target_of (idle_at d.backed.ledger) entries after.1),
    ) in
    let nothing : IsSettled (targets X now keys) c.backed.ledger = (v, idle) in
    elim (Bool-cases ended) [
      | inl over ↦ rw over nothing
      | inr going ↦ elim (Bool-cases (length keys == 0)) [
        | inl empty ↦ rw (going, empty) nothing
        | inr given ↦ elim (Bool-cases (response_superseded X.platform X.res unique c.markers)) [
          | inl superseded ↦ rw (going, given, superseded) nothing
          | inr current ↦ rw (going, given, current) settled
        ]
      ]
    ]
