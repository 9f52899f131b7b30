-- ===== src/Limit/Limiter.antt =====
-- server/web/filter/ratelimit/limiter.go: a bucket for each session key. The bucket factory is
-- `newTokenBucket`, as in a limiter that no option changes. A request holds three locks one after the other,
-- so that its sections are functions of their own, each of the state that it meets.
pub mod Sessions
use beego.Common.{
  ℕ, Bool, true, false, if◌then◌else◌, Option, none, some, Text, codes, text_eq, List, [],
}
use beego.Common.Int.{ℤ, pos}
use beego.Common.Dict.{Dict, lookup, insert}
use beego.Limit.Bucket.{TokenBucket, new_token_bucket, take}

pub record RejectionResponse : Type 0 where
  pub code : ℕ
  pub body : Text

pub record Limiter : Type 0 where
  pub capacity : ℕ
  pub rate : ℤ
  pub buckets : Dict TokenBucket
  pub resp : RejectionResponse

abbrev pub default_rejection_response : RejectionResponse
default_rejection_response = record { code = 429; body = codes "too many requests" }

-- The limiter of `NewLimiter` with no option: 100 tokens, one every 10 milliseconds.
abbrev pub default_limiter : Limiter
default_limiter = record {
  capacity = 100;
  rate = pos 10_000_000;
  buckets = [];
  resp = default_rejection_response;
}

abbrev pub with_rate : ℤ → Limiter → Limiter
with_rate r l = record l { rate = r }

abbrev pub with_capacity : ℕ → Limiter → Limiter
with_capacity c l = record l { capacity = c }

abbrev pub with_rejection_response : RejectionResponse → Limiter → Limiter
with_rejection_response resp l = record l { resp = resp }

-- `createBucket` at the time `now`, under the write lock: the bucket may be there by then.
unfoldable pub create_bucket : ℕ → Limiter → Text → Limiter × TokenBucket
create_bucket now later key = elim (lookup key later.buckets) [
  | some b ↦ (later, b)
  | none ↦
      let b = new_token_bucket now later.capacity later.rate in
      (record later { buckets = insert key b later.buckets }, b)
]

-- `getBucket`, which looks in the map `l` and goes on under the lock over the map `later`. An entry of the
-- map is never replaced or removed, so the pointer that it gives is the one of the key's entry.
unfoldable pub get_bucket : ℕ → Limiter → Limiter → Text → Limiter
get_bucket now l later key = elim (lookup key l.buckets) [
  | some b ↦ later
  | none ↦ (create_bucket now later key).0
]

-- `bucket.take`, under the lock of the bucket: its new state stands in the map, which holds the pointer.
-- A key without a bucket stands for the nil, for which `limiter.take` lets the request through.
unfoldable pub take_bucket : ℕ → Limiter → Text → ℕ → Limiter × Bool
take_bucket now last key amount = elim (lookup key last.buckets) [
  | none ↦ (last, true)
  | some b ↦
      let (b', granted) = take now b amount in
      (record last { buckets = insert key b' last.buckets }, granted)
]

-- `limiter.take` of a request that no other request comes between.
unfoldable pub limiter_take : ℕ → Limiter → Text → ℕ → Limiter × Bool
limiter_take now l key amount = take_bucket now (get_bucket now l l key) key amount

-- The filter that `NewLimiter` returns: what it writes, nothing where it lets the request through.
unfoldable pub filter_request : ℕ → Limiter → Text → Limiter × Option RejectionResponse
filter_request now l key =
    let (l', granted) = limiter_take now l key 1 in (l', if granted then none else some l.resp)

-- `RemoteIPSessionKey` of the two headers and the remote address.
unfoldable pub remote_ip_session_key : Text → Text → Text → Text
remote_ip_session_key real_ip forwarded_for remote_addr =
    let ip = if text_eq real_ip (codes "") then forwarded_for else real_ip in
    if text_eq ip (codes "") then remote_addr else ip

abbrev pub default_session_key : Text
default_session_key = codes "BEEGO_ALL"
