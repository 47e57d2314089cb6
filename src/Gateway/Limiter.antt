-- ===== src/Gateway/Limiter.antt =====
-- docker/images/gateway/limiter.go: a token bucket for each client address.
-- Times are nanoseconds. The source counts tokens in float64 and adds burst/window of one for each
-- nanosecond; here a bucket holds its tokens times the window, an exact integer, so that adding is
-- `burst` for each nanosecond and a whole token is `window`. Callers read the clock before they
-- take the lock, so a call may come with an earlier time than the last: the sum is a signed one.
-- The window is positive: with another, main.go's ticker panics before the gateway serves.
pub mod Credit
pub mod Rate
pub mod Refined
mod Tests
use interview_labs.Prelude.{
  ℕ, zero, ◌+◌, ◌*◌, Text, Bool, true, false, Option, none, some, [], ltb, length, if◌then◌else◌,
}
use interview_labs.Prelude.Int.{ℤ, pos, sub_ℕ, ◌+ℤ◌, leb_ℤ, min_ℤ}
use interview_labs.Prelude.Assoc.{Assoc, lookup, insert, remove_if}

pub record Bucket : Type 0 where
  pub tokens : ℤ
  pub last : ℕ

pub record Limiter : Type 0 where
  pub buckets : Assoc Bucket
  pub burst : ℕ
  pub window : ℕ

abbrev pub full : Limiter → ℤ
full l = pos (l.burst * l.window)

unfoldable pub new_limiter : ℕ → ℕ → Limiter
new_limiter burst window = record { buckets = []; burst = burst; window = window }

-- `l.buckets[key]`, made full where there is none.
unfoldable pub bucket_of : Limiter → Text → ℕ → Bucket
bucket_of l key now = elim (lookup key l.buckets) [
  | none ↦ record { tokens = full l; last = now }
  | some b ↦ b
]

unfoldable pub refill : Limiter → Bucket → ℕ → ℤ
refill l b now = min_ℤ (full l) (b.tokens +ℤ sub_ℕ (now * l.burst) (b.last * l.burst))

abbrev store : Limiter → Text → ℤ → ℕ → Limiter
store l key tokens now = record l {
  buckets = insert key (record { tokens = tokens; last = now }) l.buckets;
}

-- What is left of `t` when a token is taken.
abbrev pub take_token : Limiter → ℤ → ℤ
take_token l t = t +ℤ sub_ℕ 0 l.window

unfoldable pub allow : Limiter → Text → ℕ → Limiter × Bool
unfolding bucket_of
allow l key now =
    let t = refill l (bucket_of l key now) now in
    if leb_ℤ (pos l.window) t
    then (store l key (take_token l t) now, true)
    else (store l key t now, false)

-- `now.Sub(b.last) > 2*l.window`
abbrev pub is_stale : Limiter → ℕ → Bucket → Bool
is_stale l now b = ltb (b.last + 2 * l.window) now

unfoldable pub sweep : Limiter → ℕ → Limiter
sweep l now = record l { buckets = remove_if (is_stale l now) l.buckets }

unfoldable pub size : Limiter → ℕ
size l = length l.buckets
