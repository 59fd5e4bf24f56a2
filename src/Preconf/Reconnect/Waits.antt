-- ===== src/Preconf/Reconnect/Waits.antt =====
-- The waits of crates/preconf-source/src/reconnect.rs.
use shipstern.Base.{ℕ, zero, suc, ◌+◌, ◌-◌, ◌*◌, ◌^◌, ◌≤◌, ◌≡◌, ap, ◌∙◌, min, arith}
use native.Mathlib.Nat.{pow-succ'}
use shipstern.Preconf.Reconnect.{wait, initial_wait, max_wait}

pow_suc : (k : ℕ) → 2 ^ suc k ≡ 2 * 2 ^ k
pow_suc k = pow-succ' 2 k

pow_positive : (k : ℕ) → 1 ≤ 2 ^ k
pow_positive zero = omega arith
pow_positive (suc k) = let p = pow_positive k in omega (arith, pow_suc k)

-- Every wait is between 100 ms and 10 s.
pub wait_bounds : (attempt : ℕ) → (initial_wait ≤ wait attempt) × (wait attempt ≤ max_wait)
unfolding wait
wait_bounds attempt = let p = pow_positive (attempt - 1) in (omega arith, omega arith)

doubles :
    (p q : ℕ)
    → q ≡ 2 * p
    → min (100 * min q (2 ^ 32 - 1)) 10000 ≡ min (2 * min (100 * min p (2 ^ 32 - 1)) 10000) 10000
doubles p q e = omega arith

-- From the first attempt on, each wait is twice the one before, or 10 s if that is less, also where
-- the power of two saturates.
pub wait_doubles :
    (attempt : ℕ) → 1 ≤ attempt → wait (attempt + 1) ≡ min (2 * wait attempt) max_wait
unfolding wait
wait_doubles attempt h =
    let up : attempt + 1 - 1 ≡ suc (attempt - 1) = omega arith in
    doubles (2 ^ (attempt - 1)) (2 ^ (attempt + 1 - 1)) (ap (λ n. 2 ^ n) up ∙ pow_suc (attempt - 1))
