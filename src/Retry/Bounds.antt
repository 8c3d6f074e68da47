-- ===== src/Retry/Bounds.antt =====
-- What a caller of the exponential strategy can rely on.
use etask.Base.{
  ℕ, suc, ◌*◌, ◌^◌, ◌<◌, ◌≡◌, ◌↔◌, true, false, ◌||◌, ℤ, pos, ◌+ℤ◌, two_63, leb_ℤ, ltb_ℤ, arith,
  mul_64-fits, wrap_32-fits,
}
use native.Mathlib.Nat.{one-le-pow}
use etask.Retry.{ExponentialBackoff, next_with_retries, interval_for, power_of_two}

-- Whatever the float conversion gives and however the product wraps, an interval that says "try
-- again" is positive and at most the maximum, if the maximum is positive.
pub next_with_retries-bounds :
    (out_of_range : ℕ → ℤ) (s : ExponentialBackoff) (retries : ℤ)
    → ltb_ℤ (pos 0) s.max_interval ≡ true
    → (next_with_retries out_of_range s retries).2 ≡ true
    → (ltb_ℤ (pos 0) (next_with_retries out_of_range s retries).1 ≡ true)
      × (leb_ℤ (next_with_retries out_of_range s retries).1 s.max_interval ≡ true)
unfolding next_with_retries
next_with_retries-bounds out_of_range s retries positive again = ground arith

-- With a positive limit the strategy gives up exactly when the count is past it; without one, never.
pub next_with_retries-limit :
    (out_of_range : ℕ → ℤ) (s : ExponentialBackoff) (retries : ℤ)
    → ((next_with_retries out_of_range s retries).2 ≡ false)
      ↔ ((ltb_ℤ (pos 0) s.max_retries ≡ true) × (ltb_ℤ s.max_retries retries ≡ true))
unfolding next_with_retries
next_with_retries-limit out_of_range s retries = (λ h. ground arith, λ h. ground arith)

interval_for-exact :
    (out_of_range : ℕ → ℤ) (s : ExponentialBackoff) (initial n : ℕ)
    → s.initial_interval ≡ pos initial
    → n < 63
    → initial * 2 ^ n < two_63
    → interval_for out_of_range s (pos (suc n)) ≡ pos (initial * 2 ^ n)
unfolding interval_for power_of_two ◌+ℤ◌
interval_for-exact out_of_range s initial n e h fits =
    rw e (ground (arith, wrap_32-fits n (omega arith), mul_64-fits initial (2 ^ n) fits))

pow-pos : (initial n : ℕ) → 0 < initial → 0 < initial * 2 ^ n
pow-pos initial n h = grind (arith, one-le-pow n 2 (omega arith))

-- For a strategy whose maximum interval has not been reached before, and a retry that its limit
-- allows, where a limit of 0 or less allows every one: the retry of number n + 1 waits
-- initial * 2^n and leaves the strategy as it was, if the initial interval is positive, n is below
-- 63, and the product fits 63 bits and is at most the maximum interval.
pub next_with_retries-exact :
    (out_of_range : ℕ → ℤ) (s : ExponentialBackoff) (initial n : ℕ)
    → s.initial_interval ≡ pos initial
    → s.max_interval_reached ≡ false
    → 0 < initial
    → n < 63
    → initial * 2 ^ n < two_63
    → leb_ℤ s.max_retries (pos 0) || leb_ℤ (pos (suc n)) s.max_retries ≡ true
    → leb_ℤ (pos (initial * 2 ^ n)) s.max_interval ≡ true
    → next_with_retries out_of_range s (pos (suc n)) ≡ (s, pos (initial * 2 ^ n), true)
unfolding next_with_retries
next_with_retries-exact out_of_range s initial n e1 e2 h1 h2 h3 h4 h5 =
    let e = interval_for-exact out_of_range s initial n e1 h2 h3 in
    rw (e, e2, h4) (ground (arith, pow-pos initial n h1))
