-- ===== src/Tasks/Backoff.antt =====
-- Retry of core/domain/task.go: when a task that failed runs again.
use Prim.Native.Nat.{min}
use native.Mathlib.Nat.{pow-le-pow_right}
use sercha_core.Base.{ℕ, ◌+◌, ◌*◌, ◌^◌, ◌%◌, ◌≤◌, String, ◌≡◌, not, ◌&&◌, ltb, if◌then◌else◌, arith}
use sercha_core.Tasks.Domain.{
  Task, second, max_backoff, raw_backoff, backoff, add_duration, retry, is_negative,
}

no_wrap : (p : ℕ) → p ≤ 2 ^ 33 → p % 2 ^ 64 * second % 2 ^ 64 ≡ p * second
no_wrap p h = omega arith

two_pow : (n : ℕ) → n ≤ 33 → 2 ^ n ≤ 2 ^ 33
two_pow n h = pow-le-pow_right {n = 2} (ground arith) h

raw_backoff_small : (n : ℕ) → n ≤ 33 → raw_backoff n ≡ 2 ^ n * second
unfolding raw_backoff
raw_backoff_small n h = no_wrap (2 ^ n) (two_pow n h)

later_by :
    (now d : ℕ)
    → d ≤ 2 ^ 33 * second
    → add_duration now (if not (is_negative d) && ltb max_backoff d then max_backoff else d)
      ≡ now + min d max_backoff
unfolding add_duration
later_by now d h = ground arith

-- A task that failed after at most 33 attempts runs again once two to the power of its attempts in
-- seconds have passed, or after five minutes where that is sooner.
pub retry_after :
    (now : ℕ) (reason : String) (t : Task)
    → t.attempts ≤ 33
    → (retry now reason t).scheduled_for ≡ now + min (2 ^ t.attempts * second) max_backoff
unfolding retry backoff
retry_after now reason t h =
    rw (raw_backoff_small t.attempts h)
      (later_by now (2 ^ t.attempts * second) (omega (arith, two_pow t.attempts h)))
