-- ===== src/Staging/Defs.antt =====
-- staging_budget.go: newStageLease, stagingWriter and handlerStage.Close.
--
-- A StagingLease is the application's. Its state is a parameter with the operations of the
-- interface; `LeaseLaws` is what their documentation asks of them. How far a write of the file gets
-- and whether a removal succeeds are arguments.
use httpcache_kit.Common.{
  ℕ, ◌+◌, ◌-◌, ◌≤◌, ◌≡◌, Bool, true, false, ◌&&◌, not, Option, none, some, List, [], ◌∷◌, ltb,
  if◌then◌else◌,
}

pub record Lease : Type 1 where
  pub State : Type 0
  pub reserve : ℕ → State → Bool × State
  pub release : ℕ → State → State
  pub close : State → State

-- The bytes that a lease holds: a reservation is all or nothing, a release returns what it names,
-- and closing returns everything.
pub record LeaseLaws (L : Lease) : Type 0 where
  pub held : L.State → ℕ
  pub granted :
      (n : ℕ) (s : L.State) → (L.reserve n s).0 ≡ true → held (L.reserve n s).1 ≡ held s + n
  pub refused : (n : ℕ) (s : L.State) → (L.reserve n s).0 ≡ false → held (L.reserve n s).1 ≡ held s
  pub released : (n : ℕ) (s : L.State) → n ≤ held s → held (L.release n s) + n ≡ held s
  pub closed : (s : L.State) → held (L.close s) ≡ 0

pub data StageError : Type 0 where
  cancelled budget_exceeded write_failed : StageError

-- What newStageLease decides from the context, the budget and the budget's answer.
pub data Answer (S : Type 0) : Type 0 where
  refusal : Option S → Answer S
  nil_lease : Answer S
  lease : S → Answer S

pub data Leased (S : Type 0) : Type 0 where
  context_ended no_budget_needed exceeded bad_budget : Leased S
  leased : S → Leased S

unfoldable pub new_stage_lease : {S : Type 0} → Bool → Option (Answer S) → Leased S
new_stage_lease true answer = context_ended
new_stage_lease false none = no_budget_needed
new_stage_lease false (some (refusal s)) = exceeded
new_stage_lease false (some nil_lease) = bad_budget
new_stage_lease false (some (lease s)) = leased s

-- One chunk for the stage: its length, whether the context has ended, and how many bytes the file
-- takes before it fails.
pub record Chunk : Type 0 where
  pub size : ℕ
  pub ended : Bool
  pub taken : ℕ

module _ (L : Lease) where
  -- The bytes written, the error, and the lease afterwards.
  unfoldable pub stage_write : Chunk → L.State → (ℕ × Option StageError) × L.State
  stage_write c s =
      let (granted, reserved) = L.reserve c.size s in
      if c.ended
      then ((0, some cancelled), s)
      else if not granted
      then ((0, some budget_exceeded), reserved)
      else if ltb c.taken c.size
      then ((c.taken, some write_failed), L.release (c.size - c.taken) reserved)
      else ((c.size, none), reserved)

  -- io.Copy: chunks up to the first error.
  unfoldable pub stage_copy : List Chunk → L.State → (ℕ × Option StageError) × L.State
  stage_copy [] s = ((0, none), s)
  stage_copy (c ∷ cs) s =
      let ((n, e), written) = stage_write c s in
      let ((rest, e'), copied) = stage_copy cs written in
      elim e [ some error ↦ ((n, some error), written) | none ↦ ((n + rest, e'), copied) ]

  -- A stage that is still there, and its lease. `named` says that the file has a path to remove.
  pub record Stage : Type 0 where
    pub done : Bool
    pub named : Bool
    pub account : L.State

  -- handlerStage.Close: once; the bytes of a file that could not be removed stay charged.
  unfoldable pub close_stage : Bool → Stage → Stage
  close_stage removed st = if st.done then st else record st {
    done = true;
    account = if st.named && not removed then st.account else L.close st.account;
  }
