-- ===== src/Core/Restarts.antt =====
-- When the health checks of internal/app/health.go ask for a restart of the core.
use xray_runner.Prelude.{ℕ, suc, ◌%◌, ◌≡◌, ◌↔◌, Bool, true, false, List, [], ◌∷◌, arith, refl}
use xray_runner.Core.Health.{count_check, fails_after}

-- failed checks since the last one that passed, the newest check first
abbrev pub trailing_fails : List Bool → ℕ
trailing_fails [] = 0
trailing_fails (true ∷ earlier) = 0
trailing_fails (false ∷ earlier) = suc (trailing_fails earlier)

fails_after-trailing : (checks : List Bool) → fails_after checks ≡ trailing_fails checks % 3
unfolding fails_after count_check
fails_after-trailing [] = refl
fails_after-trailing (true ∷ earlier) = refl
fails_after-trailing (false ∷ earlier) = ground (arith, fails_after-trailing earlier)

-- A check asks for a restart exactly if it fails and the failed checks in a row, itself counted,
-- are a multiple of three.
pub restart_iff :
    (ok : Bool) (earlier : List Bool)
    → ((count_check ok (fails_after earlier)).1 ≡ true)
      ↔ ((ok ≡ false) × (suc (trailing_fails earlier) % 3 ≡ 0))
unfolding count_check
restart_iff ok earlier = ground (arith, fails_after-trailing earlier)
