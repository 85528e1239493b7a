-- ===== src/Sync/Ledger/Delays.antt =====
-- computeBackoffDelay of adapters/driven/postgres/sync_failed_doc_store.go against its closed form.
use Prim.Native.Nat.{min}
use native.Mathlib.Nat.{two-pow-succ, one-le-pow}
use sercha_core.Base.{
  ℕ, zero, suc, ◌-◌, ◌*◌, ◌%◌, ◌^◌, ◌≤◌, ◌<◌, true, false, ◌≡◌, ◌∙◌, ap, sym, arith, Bool-cases,
  inl, inr,
}
use sercha_core.Sync.Ledger.{RetryBackoff, reaches, capped, doubled, compute_backoff_delay}

no_wrap : (d m : ℕ) → d ≤ m → m < 2 ^ 62 → d * 2 % 2 ^ 64 ≡ d * 2
no_wrap d m h k = omega arith

capped_small : (d m : ℕ) → d ≤ m → m < 2 ^ 62 → capped d m ≡ d
capped_small d m h k = ground arith

pow_suc : (d n : ℕ) → d * 2 ^ suc n ≡ d * 2 * 2 ^ n
pow_suc d n = grind (arith, two-pow-succ n)

grows : (m x p : ℕ) → m ≤ x → 0 < p → m ≤ x * p
grows m x p h k = grind arith

two_pow_pos : (n : ℕ) → 0 < 2 ^ n
two_pow_pos n = one-le-pow n 2 (omega arith)

reached : (d n m : ℕ) → m ≤ d * 2 → m ≡ min (d * 2 ^ suc n) m
reached d n m h = omega (arith, pow_suc d n, grows m (d * 2) (2 ^ n) h (two_pow_pos n))

reaches_small :
    (d m : ℕ)
    → d ≤ m
    → m < 2 ^ 62
    → (reaches (d * 2) m ≡ true → m ≤ d * 2) × (reaches (d * 2) m ≡ false → d * 2 ≤ m)
reaches_small d m h k = (ground arith, ground arith)

-- Once a doubling reaches the maximum, all later ones would.
doubled_lem : (n d m : ℕ) → d ≤ m → m < 2 ^ 62 → doubled n d m ≡ min (d * 2 ^ n) m
unfolding doubled
doubled_lem zero d m h k = ground arith
doubled_lem (suc n) d m h k = rw (no_wrap d m h k) (elim (Bool-cases (reaches (d * 2) m)) [
  | inl at_max ↦ rw at_max (reached d n m ((reaches_small d m h k).0 at_max))
  | inr below ↦ rw below (
      doubled_lem n (d * 2) m ((reaches_small d m h k).1 below) k
      ∙ ap (λ (x : ℕ). min x m) (sym (pow_suc d n)))
])

one_back : (n : ℕ) → suc n - 1 ≡ n
one_back n = omega arith

-- Where the base is at most the maximum, and that below 2^62 nanoseconds, the n-th failure waits
-- for the base times two to the power of n - 1, or for the maximum where that is less.
pub compute_backoff_delay-min :
    (n : ℕ) (b : RetryBackoff)
    → b.base ≤ b.max
    → b.max < 2 ^ 62
    → compute_backoff_delay (suc n) b ≡ min (b.base * 2 ^ n) b.max
unfolding compute_backoff_delay
compute_backoff_delay-min n b h k = rw (one_back n) (doubled_lem n b.base b.max h k)
