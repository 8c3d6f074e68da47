-- ===== src/Cancellation/Backoff.antt =====
-- The waiting time between two deliveries (`cancellationBackoff` of
-- internal/service/termination/service.go).
use etask.Base.{ℕ, zero, suc, ◌*◌, ◌≤◌, ◌<◌, ◌≡◌, refl, arith}
use etask.Cancellation.Delivery.{cancellation_backoff}

capped : (n : ℕ) → cancellation_backoff (suc (suc (suc (suc (suc (suc (suc n))))))) ≡ 64000
unfolding cancellation_backoff
capped n = ground arith

-- The wait between two deliveries is between one second and 64 seconds, and never shrinks.
pub cancellation_backoff-bounds :
    (n : ℕ)
    → (1000 ≤ cancellation_backoff n)
      × (cancellation_backoff n ≤ 64000)
      × (cancellation_backoff n ≤ cancellation_backoff (suc n))
unfolding cancellation_backoff
cancellation_backoff-bounds zero = (omega arith, omega arith, omega arith)
cancellation_backoff-bounds (suc zero) = (omega arith, omega arith, omega arith)
cancellation_backoff-bounds (suc (suc zero)) = (omega arith, omega arith, omega arith)
cancellation_backoff-bounds (suc (suc (suc zero))) = (omega arith, omega arith, omega arith)
cancellation_backoff-bounds (suc (suc (suc (suc zero)))) = (omega arith, omega arith, omega arith)
cancellation_backoff-bounds (suc (suc (suc (suc (suc zero))))) =
    (omega arith, omega arith, omega arith)
cancellation_backoff-bounds (suc (suc (suc (suc (suc (suc zero)))))) =
    (omega arith, omega arith, omega (arith, capped zero))
cancellation_backoff-bounds (suc (suc (suc (suc (suc (suc (suc n))))))) =
    (omega (arith, capped n), omega (arith, capped n), omega (arith, capped n, capped (suc n)))

-- The wait doubles with each of the first six failures.
pub cancellation_backoff-doubles :
    (n : ℕ) → n < 6 → cancellation_backoff (suc n) ≡ 2 * cancellation_backoff n
unfolding cancellation_backoff
cancellation_backoff-doubles zero h = refl
cancellation_backoff-doubles (suc zero) h = refl
cancellation_backoff-doubles (suc (suc zero)) h = refl
cancellation_backoff-doubles (suc (suc (suc zero))) h = refl
cancellation_backoff-doubles (suc (suc (suc (suc zero)))) h = refl
cancellation_backoff-doubles (suc (suc (suc (suc (suc zero))))) h = refl
cancellation_backoff-doubles (suc (suc (suc (suc (suc (suc n)))))) h = absurd (omega arith)
