-- ===== src/Common/Table.antt =====
-- A test that passes at every number below a bound, by evaluation.
use Prim.Native.Nat.{ℕ, zero, suc, ◌<◌}
use mathlib.Core.Path.{◌≡◌}
use mathlib.Core.Bool.{Bool, true, ◌&&◌}
use native.Mathlib.Omega.{arith}

unfoldable pub passes_below : (ℕ → Bool) → ℕ → Bool
passes_below test zero = true
passes_below test (suc n) = passes_below test n && test n

pub passes_below_at :
    (test : ℕ → Bool) (n c : ℕ) → passes_below test n ≡ true → c < n → test c ≡ true
unfolding passes_below
passes_below_at test zero c h lt = absurd (omega arith)
passes_below_at test (suc n) c h lt = ground (arith, passes_below_at test n c)
