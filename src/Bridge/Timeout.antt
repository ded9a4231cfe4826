-- ===== src/Bridge/Timeout.antt =====
-- `get_default_timeout`: the product of time limit and retries, or `INFINITE` where it overflows.
use bridge_remix_mhfz.Base.{
  ℕ, zero, suc, ◌*◌, ◌/◌, ◌^◌, ◌≤◌, ◌<◌, ◌≡◌, ◌≢◌, subst, ltb, if◌then◌else◌, arith, Bool-cases,
  inl, inr, ltb→lt, ltb_false→le,
}
use bridge_remix_mhfz.Base.Words.{mul32}
use bridge_remix_mhfz.Bridge.{default_timeout, infinite}

-- For a time limit and retries of 32 bits the result is their product, or `INFINITE` just where the
-- product does not fit into 32 bits: the test for an overflow is exact.
pub default_timeout-eq :
    (timeout retries : ℕ)
    → timeout < 2 ^ 32
    → retries < 2 ^ 32
    → default_timeout timeout retries
      ≡ (if ltb (timeout * retries) (2 ^ 32) then timeout * retries else infinite)
unfolding default_timeout
default_timeout-eq zero retries h k = grind arith
default_timeout-eq (suc t) retries h k =
    let p = suc t * retries in
    elim (Bool-cases (ltb p (2 ^ 32))) [
      | inl fits ↦
          let small : mul32 (suc t) retries ≡ p = omega (arith, ltb→lt p (2 ^ 32) fits) in
          let quotient : p / suc t ≡ retries = grind arith in ground (arith, small, quotient)
      | inr over ↦
          let low : mul32 (suc t) retries < 2 ^ 32 = omega arith in
          let high : 2 ^ 32 ≤ p = ltb_false→le p (2 ^ 32) over in
          let quotient : mul32 (suc t) retries / suc t ≢ retries = λ e.
            let q = mul32 (suc t) retries in
            let d : suc t * (q / suc t) ≤ q = grind arith in
            let d' : suc t * retries ≤ q = subst (λ (x : ℕ). suc t * x ≤ q) e d in
            omega (arith, d', low, high) in
          ground (arith, quotient)
    ]
