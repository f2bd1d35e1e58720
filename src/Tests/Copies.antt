-- ===== src/Tests/Copies.antt =====
-- The theorems on staging, with a budget of ten bytes, and on configurations.
use httpcache_kit.Common.{
  ℕ, ◌+◌, ◌-◌, ◌≡◌, refl, Bool, true, false, [], ◌∷◌, leb, arith, if◌then◌else◌, pos, negsuc, List,
}
use httpcache_kit.Staging.Defs.{Lease, LeaseLaws, Chunk, stage_copy, stage_write}
use httpcache_kit.Staging.Charges.{stage_copy_charge}
use httpcache_kit.Config.Defs.{CacheConfig, validate}
use httpcache_kit.Config.Validation.{IsValid, validate-IsValid}

unfoldable reserve_ten : ℕ → ℕ → Bool × ℕ
reserve_ten n held = if leb (held + n) 10 then (true, held + n) else (false, held)

abbrev ten : Lease
ten = record { State = ℕ; reserve = reserve_ten; release = λ n held. held - n; close = λ held. 0 }

ten-LeaseLaws : LeaseLaws ten
unfolding reserve_ten
ten-LeaseLaws = record {
  held = λ s. s;
  granted = λ n s h. ground arith;
  refused = λ n s h. ground arith;
  released = λ n s h. omega arith;
  closed = λ s. refl;
}

-- Four bytes, then five of which three are taken.
abbrev chunks : List Chunk
chunks =
    record { size = 4; ended = false; taken = 4 }
    ∷ record { size = 5; ended = false; taken = 3 }
    ∷ []

stage_copy_charge_example : (stage_copy ten chunks 0).1 ≡ 0 + (stage_copy ten chunks 0).0.0
unfolding stage_copy ten-LeaseLaws
stage_copy_charge_example = stage_copy_charge ten ten-LeaseLaws chunks 0

copied : (stage_copy ten chunks 0).0.0 ≡ 7
unfolding stage_copy stage_write reserve_ten
copied = refl

abbrev negative : CacheConfig
negative = record {
  max_size = negsuc 4;
  ttl = pos 9;
  cleanup_interval = negsuc 0;
  stale_map_ttl = pos 0;
}

validate-IsValid_example :
    IsValid (validate negative) × (validate (validate negative) ≡ validate negative)
validate-IsValid_example = validate-IsValid negative
