-- ===== src/Substrate/Supervisor/Bounds.antt =====
-- The delay before a restart.
use app_shak_hq.Prelude.{
  ap, arith, false, ltb, min, refl, suc, true, zero, ℕ, ◌*◌, ◌+◌, ◌-◌, ◌<◌, ◌^◌, ◌≡◌, ◌≤◌,
}
use app_shak_hq.Substrate.Supervisor.State.{Settings}
use app_shak_hq.Python.Exec.{ok, overflow_error, raised}
use app_shak_hq.Substrate.Supervisor.Restart.{restart_delay}
use native.Mathlib.Nat.{pow-suc}

pow_pos : (n : ℕ) → 1 ≤ 2 ^ n
pow_pos zero = omega arith
pow_pos (suc n) = omega (arith, pow-suc 2 n, pow_pos n)

pow_mono : (m n : ℕ) → m ≤ n → 2 ^ m ≤ 2 ^ n
pow_mono zero n h = pow_pos n
pow_mono (suc m) zero h = absurd (omega arith)
pow_mono (suc m) (suc n) h = omega (arith, pow-suc 2 m, pow-suc 2 n, pow_mono m n (omega arith))

min_double : (cap x : ℕ) → min cap (2 * x) ≡ min cap (2 * min cap x)
min_double cap x = grind arith

pow_step : (b m : ℕ) → 1 ≤ m → b * 2 ^ m ≡ 2 * (b * 2 ^ (m - 1))
pow_step b zero h = absurd (omega arith)
pow_step b (suc m) h = grind (arith, pow-suc 2 m)

-- At the first restart the delay is the backoff that the settings give, if that is no more than the
-- cap. Up to 1024 restarts there is a delay: each is twice the one before, or the cap where that is
-- less, so that it never shrinks and lies between the backoff and the cap. From the 1025th restart
-- on its computation overflows, whatever the cap is.
pub restart_delay_bounds :
    (cfg : Settings) (m n more : ℕ)
    → cfg.restart_backoff ≤ cfg.restart_backoff_cap
    → 1 ≤ m
    → m < n
    → n ≤ 1024
    → (a : ℕ) × (b : ℕ) × (restart_delay cfg m ≡ ok a)
      × (restart_delay cfg n ≡ ok b)
      × (restart_delay cfg 1 ≡ ok cfg.restart_backoff)
      × (restart_delay cfg (m + 1) ≡ ok (min cfg.restart_backoff_cap (2 * a)))
      × (cfg.restart_backoff ≤ a)
      × (a ≤ b)
      × (b ≤ cfg.restart_backoff_cap)
      × (restart_delay cfg (1025 + more)
          ≡ raised (overflow_error "int too large to convert to float"))
unfolding restart_delay
restart_delay_bounds cfg m n more h some_failed le few =
    let p = pow_pos (m - 1) in
    let q = pow_mono (m - 1) (n - 1) (omega arith) in
    let fits_m : ltb (m - 1) 1024 ≡ true = ground arith in
    let fits_n : ltb (n - 1) 1024 ≡ true = ground arith in
    let fits_next : ltb (m + 1 - 1) 1024 ≡ true = ground arith in
    let over : ltb (1025 + more - 1) 1024 ≡ false = ground arith in
    let same : m + 1 - 1 ≡ m = omega arith in
    let cap = cfg.restart_backoff_cap in
    let product = cfg.restart_backoff * 2 ^ (m - 1) in
    let first : min cap (cfg.restart_backoff * 1) ≡ cfg.restart_backoff = grind arith in
    let doubled : min cap (cfg.restart_backoff * 2 ^ (m + 1 - 1)) ≡ min cap (2 * min cap product) =
      rw (same, pow_step cfg.restart_backoff m some_failed) (min_double cap product) in
    (
      min cap product,
      min cap (cfg.restart_backoff * 2 ^ (n - 1)),
      rw fits_m refl,
      rw fits_n refl,
      ap (λ x. ok x) first,
      rw fits_next (ap (λ x. ok x) doubled),
      grind arith,
      grind arith,
      omega arith,
      rw over refl,
    )
