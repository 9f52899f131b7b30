-- ===== src/Limit/Bucket.antt =====
-- server/web/filter/ratelimit/token_bucket.go. Times and durations are nanoseconds; `uint` has 64 bits.
-- A method takes the time of its call to `time.Now`; the lock makes it one step.
pub mod Bounds
use beego.Common.{ℕ, zero, suc, ◌+◌, ◌-◌, ◌*◌, ◌/◌, ◌%◌, Bool, true, false, ltb, if◌then◌else◌}
use beego.Common.Int.{ℤ, pos, negsuc}

abbrev pub uint_mod : ℕ
uint_mod = 18_446_744_073_709_551_616

pub record TokenBucket : Type 0 where
  pub remaining : ℕ
  pub capacity : ℕ
  pub last_check_at : ℕ
  pub rate : ℤ

-- `newTokenBucket` with the options `withCapacity` and `withRate`.
unfoldable pub new_token_bucket : ℕ → ℕ → ℤ → TokenBucket
new_token_bucket now capacity rate = record {
  remaining = capacity;
  capacity = capacity;
  last_check_at = now;
  rate = rate;
}

-- `uint(now.Sub(b.lastCheckAt) / b.rate)` for a positive rate: the division of a negative duration rounds
-- towards 0, and its conversion to `uint` wraps around.
abbrev pub ticks : ℕ → ℕ → ℕ → ℕ
ticks now last rate =
    if ltb now last then (uint_mod - (last - now) / rate) % uint_mod else (now - last) / rate

-- `b.lastCheckAt.Add(time.Duration(times) * b.rate)`
abbrev pub checked_at : ℕ → ℕ → ℕ → ℕ
checked_at now last rate =
    if ltb now last then last - (last - now) / rate * rate else last + (now - last) / rate * rate

-- `take` from `b.Lock()` on, at a positive rate.
unfoldable pub take_at : ℕ → TokenBucket → ℕ → ℕ → TokenBucket × Bool
take_at now b amount rate =
    let remaining = (b.remaining + ticks now b.last_check_at rate) % uint_mod in
    let last = checked_at now b.last_check_at rate in
    if ltb remaining amount
    then (record b { remaining = remaining; last_check_at = last }, false)
    else (
      record b {
        remaining = if ltb b.capacity (remaining - amount) then b.capacity else remaining - amount;
        last_check_at = last;
      },
      true,
    )

-- By the rate.
take_by : ℤ → ℕ → TokenBucket → ℕ → TokenBucket × Bool
take_by (negsuc _) now b amount = (b, true)
take_by (pos zero) now b amount = (b, true)
take_by (pos (suc rate)) now b amount = take_at now b amount (suc rate)

unfoldable pub take : ℕ → TokenBucket → ℕ → TokenBucket × Bool
unfolding take_by
take now b amount = take_by b.rate now b amount
