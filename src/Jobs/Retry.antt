-- ===== src/Jobs/Retry.antt =====
-- `optional_job_crate_name` and `jittered_retry_delay_seconds` of
-- crates/rust-mcp/src/mcp/indexing/worker.rs.
use rust_mcp.Prelude.{
  ℕ, zero, suc, ◌+◌, ◌-◌, ◌*◌, ◌/◌, ◌%◌, ◌^◌, ◌≤◌, ◌<◌, ◌≡◌, refl, sym, subst, min, ◌||◌, Option,
  none, some, arith, ltb, leb, ◌==◌, if◌then◌else◌, is_empty,
}
use rust_mcp.Prelude.Options.{◌>>=◌, or_else}
use rust_mcp.Text.{Text, codes, trim, text_eq, eq_ignore_case}
use rust_mcp.Limits.{clamp}

-- `MAX_ATTEMPTS` of the worker's loop.
abbrev pub max_attempts : ℕ
max_attempts = 3

-- A name that asks for one crate, and not for all of them.
named : Text → Option Text
named value =
    let trimmed = trim value in
    if is_empty trimmed || (text_eq trimmed (codes "*") || eq_ignore_case trimmed (codes "all"))
    then none
    else some trimmed

-- The payload's name, or else the job's.
unfoldable pub optional_job_crate_name : Text → Option Text → Option Text
unfolding named
optional_job_crate_name job_crate_name payload_crate_name =
    or_else (payload_crate_name >>= named) (named job_crate_name)

-- `rem_euclid(31)` of the i64 whose two's complement is `bits`.
unfoldable pub rem_euclid_31 : ℕ → ℕ
rem_euclid_31 bits =
    let r = (2 ^ 64 - bits) % 31 in
    if ltb bits (2 ^ 63) then bits % 31 else if r == 0 then 0 else 31 - r

-- The backoff of a number of attempts: 5 seconds, doubled for each attempt behind the first.
unfoldable pub backoff : ℕ → ℕ
unfolding clamp
backoff attempts = min (5 * 2 ^ clamp 0 5 (attempts - 1)) 300

-- The backoff moved by a percentage of itself, rounded towards 0; `r` is the percentage plus 15.
unfoldable pub jittered : ℕ → ℕ → ℕ
unfolding clamp
jittered delay r =
    clamp 1 600
      (if leb 15 r then delay + delay * (r - 15) / 100 else delay - delay * (15 - r) / 100)

-- `now_nanos` is the clock's, read at the call.
unfoldable pub jittered_retry_delay_seconds : ℕ → ℕ → ℕ → ℕ
unfolding rem_euclid_31 backoff jittered
jittered_retry_delay_seconds now_nanos job_id attempts =
    let seed = (now_nanos + job_id * 97 % 2 ^ 64) % 2 ^ 64 in
    jittered (backoff attempts) (rem_euclid_31 seed)

rem_euclid_31_lem : (bits : ℕ) → rem_euclid_31 bits < 31
unfolding rem_euclid_31
rem_euclid_31_lem bits = ground arith

-- The backoff is one of six.
data Level : ℕ → ℕ → Type 0 where
  first : {a : ℕ} → a ≤ 1 → Level a 5
  second : Level 2 10
  third : Level 3 20
  fourth : Level 4 40
  fifth : Level 5 80
  last : {a : ℕ} → 6 ≤ a → Level a 160

backoff_late : (a : ℕ) → 6 ≤ a → backoff a ≡ 160
unfolding backoff clamp
backoff_late a h = ground arith

backoff-Level : (a : ℕ) → Level a (backoff a)
unfolding backoff clamp
backoff-Level zero = first (omega arith)
backoff-Level (suc zero) = first (omega arith)
backoff-Level (suc (suc zero)) = second
backoff-Level (suc (suc (suc zero))) = third
backoff-Level (suc (suc (suc (suc zero)))) = fourth
backoff-Level (suc (suc (suc (suc (suc zero))))) = fifth
backoff-Level (suc (suc (suc (suc (suc (suc n)))))) =
    subst (Level (suc (suc (suc (suc (suc (suc n)))))))
      (sym (backoff_late (suc (suc (suc (suc (suc (suc n)))))) (omega arith))) (last (omega arith))

-- The jitter is at most 15 percent, and the clamp to 1 and 600 seconds never binds.
IsNear : ℕ → ℕ → Type 0
IsNear delay jitter = (delay * 85 ≤ jitter * 100) × (jitter * 100 ≤ delay * 115)

jittered-IsNear : (a b r : ℕ) → Level a b → r < 31 → IsNear b (jittered b r)
unfolding jittered clamp IsNear
jittered-IsNear a b r (first h) l = ground arith
jittered-IsNear a b r second l = ground arith
jittered-IsNear a b r third l = ground arith
jittered-IsNear a b r fourth l = ground arith
jittered-IsNear a b r fifth l = ground arith
jittered-IsNear a b r (last h) l = ground arith

-- Whatever the clock and the job's id are, the delay stays within 15 percent of the backoff.
pub jittered_retry_delay_seconds-backoff :
    (now_nanos job_id attempts : ℕ)
    → (backoff attempts * 85 ≤ jittered_retry_delay_seconds now_nanos job_id attempts * 100)
      × (jittered_retry_delay_seconds now_nanos job_id attempts * 100 ≤ backoff attempts * 115)
unfolding jittered_retry_delay_seconds IsNear
jittered_retry_delay_seconds-backoff now_nanos job_id attempts =
    jittered-IsNear attempts (backoff attempts)
      (rem_euclid_31 ((now_nanos + job_id * 97 % 2 ^ 64) % 2 ^ 64)) (backoff-Level attempts)
      (rem_euclid_31_lem ((now_nanos + job_id * 97 % 2 ^ 64) % 2 ^ 64))

backoff_doubles : (a : ℕ) → 1 ≤ a → a < 6 → (backoff (suc a) ≡ backoff a * 2) × (5 ≤ backoff a)
unfolding backoff clamp
backoff_doubles zero h k = absurd (omega arith)
backoff_doubles (suc zero) h k = (refl, omega arith)
backoff_doubles (suc (suc zero)) h k = (refl, omega arith)
backoff_doubles (suc (suc (suc zero))) h k = (refl, omega arith)
backoff_doubles (suc (suc (suc (suc zero)))) h k = (refl, omega arith)
backoff_doubles (suc (suc (suc (suc (suc zero))))) h k = (refl, omega arith)
backoff_doubles (suc (suc (suc (suc (suc (suc n)))))) h k = absurd (omega arith)

-- From the first attempt to the sixth each delay is longer than the one before, whatever the clock
-- reads at the two calls and whichever the jobs are.
pub jittered_retry_delay_seconds_grows :
    (now_nanos later_nanos job_id other_id attempts : ℕ)
    → 1 ≤ attempts
    → attempts < 6
    → jittered_retry_delay_seconds now_nanos job_id attempts
      < jittered_retry_delay_seconds later_nanos other_id (suc attempts)
jittered_retry_delay_seconds_grows now_nanos later_nanos job_id other_id attempts h k = omega (
  arith,
  backoff_doubles attempts h k,
  jittered_retry_delay_seconds-backoff now_nanos job_id attempts,
  jittered_retry_delay_seconds-backoff later_nanos other_id (suc attempts),
)
