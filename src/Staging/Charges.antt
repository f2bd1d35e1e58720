-- ===== src/Staging/Charges.antt =====
-- staging_budget.go: the bytes that a lease holds, through writes and the closing of a stage.
use httpcache_kit.Common.{
  ◌+◌, ◌-◌, ◌≡◌, List, [], ◌∷◌, ltb, arith, Bool-cases, Option-cases, inl, inr, ltb→lt,
}
use httpcache_kit.Staging.Defs.{Lease, LeaseLaws, Chunk, stage_write, stage_copy}

module _ (L : Lease) (laws : LeaseLaws L) where
  stage_write_charge :
      (c : Chunk) (s : L.State)
      → laws.held (stage_write L c s).1 ≡ laws.held s + (stage_write L c s).0.0
  unfolding stage_write
  stage_write_charge c s =
      let g = laws.granted c.size s in
      let r = laws.refused c.size s in
      let b = laws.released (c.size - c.taken) (L.reserve c.size s).1 in
      elim (Bool-cases c.ended) [
        | inl over ↦ rw (stage_write, over) (omega arith)
        | inr going ↦ elim (Bool-cases (L.reserve c.size s).0) [
          | inr full ↦ rw (stage_write, going, full) (omega (arith, r full))
          | inl held ↦ elim (Bool-cases (ltb c.taken c.size)) [
            | inr all ↦ rw (stage_write, going, held, all) (g held)
            | inl short ↦
                let less = ltb→lt c.taken c.size short in
                let charged = g held in
                let back = b (omega arith) in rw (stage_write, going, held, short) (omega arith)
          ]
        ]
      ]

  -- After copying chunks to the stage, however the writes end, the lease holds what it held before
  -- and exactly the bytes that were written.
  pub stage_copy_charge :
      (cs : List Chunk) (s : L.State)
      → laws.held (stage_copy L cs s).1 ≡ laws.held s + (stage_copy L cs s).0.0
  unfolding stage_copy
  stage_copy_charge [] s = omega arith
  stage_copy_charge (c ∷ cs) s =
      let now = stage_write_charge c s in
      let later = stage_copy_charge cs (stage_write L c s).1 in
      elim (Option-cases (stage_write L c s).0.1) [
        | inl fine ↦ rw (stage_copy, fine) (omega (arith, now, later))
        | inr (e, failed) ↦ rw (stage_copy, failed) now
      ]
