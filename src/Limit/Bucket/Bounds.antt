-- ===== src/Limit/Bucket/Bounds.antt =====
-- How many tokens a bucket of token_bucket.go hands out.
use beego.Common.{
  ℕ, suc, ◌+◌, ◌-◌, ◌*◌, ◌/◌, ◌%◌, ◌≤◌, ◌<◌, ◌≡◌, Bool, true, false, ltb, if◌then◌else◌, List, [],
  ◌∷◌, arith, ◌∙◌,
}
use native.Mathlib.Nat.{le_trans, le_refl, mod-eq_of_lt}
use beego.Common.Int.{pos}
use beego.Limit.Bucket.{TokenBucket, uint_mod, take_at, take_by, take}

-- The requests of a client, each a time and an amount, and the sum of the amounts that are granted.
unfoldable pub serve : TokenBucket → List (ℕ × ℕ) → TokenBucket × ℕ
serve b [] = (b, 0)
serve b ((now, amount) ∷ requests) =
    let (b', granted) = take now b amount in
    let (last, total) = serve b' requests in (last, if granted then amount + total else total)

-- The times of the requests do not go back.
abbrev pub Later : ℕ → List (ℕ × ℕ) → Type 0
Later t [] = Unit
Later t ((now, amount) ∷ requests) = (t ≤ now) × Later now requests

div_mul_le : (a b : ℕ) → 0 < b → a / b * b ≤ a
div_mul_le a b h = grind arith

le-div_of_mul-le : (a b c : ℕ) → 0 < c → a * c ≤ b → a ≤ b / c
le-div_of_mul-le a b c h k = grind arith

-- The ticks that have passed since the last check.
abbrev pub passed : ℕ → TokenBucket → ℕ → ℕ
passed now b rate = (now - b.last_check_at) / suc rate

take-take_at :
    (now rate amount : ℕ) (b : TokenBucket)
    → b.rate ≡ pos (suc rate)
    → take now b amount ≡ take_at now b amount (suc rate)
unfolding take
take-take_at now rate amount b e = rw (e, take_by)

take_at_step :
    (now rate amount : ℕ) (b : TokenBucket)
    → b.last_check_at ≤ now
    → let r = take_at now b amount (suc rate) in
      (r.0.rate ≡ b.rate)
      × (r.0.capacity ≡ b.capacity)
      × (r.0.last_check_at ≡ b.last_check_at + passed now b rate * suc rate)
      × ((if r.1 then amount else 0) + r.0.remaining ≤ b.remaining + passed now b rate)
unfolding take_at
take_at_step now rate amount b h =
    let forward : ltb now b.last_check_at ≡ false = ground arith in rw forward (ground arith)

Later-weaken : (t u : ℕ) (requests : List (ℕ × ℕ)) → t ≤ u → Later u requests → Later t requests
Later-weaken t u [] h k = tt
Later-weaken t u ((now, amount) ∷ requests) h (le, k) = (le_trans h le, k)

-- The time of the last call.
abbrev pub last_call : ℕ → List (ℕ × ℕ) → ℕ
last_call t [] = t
last_call t ((now, _) ∷ requests) = last_call now requests

last_call-le : (t : ℕ) (requests : List (ℕ × ℕ)) → Later t requests → t ≤ last_call t requests
last_call-le t [] h = le_refl t
last_call-le t ((now, amount) ∷ requests) (le, h) = le_trans le (last_call-le now requests h)

last_call_mono :
    (t u : ℕ) (requests : List (ℕ × ℕ)) → t ≤ u → last_call t requests ≤ last_call u requests
last_call_mono t u [] h = h
last_call_mono t u (_ ∷ requests) h = le_refl _

-- From a bucket with a positive rate, calls at times that do not go back are granted no more in sum than
-- the tokens that it held and one for each tick of its rate from its last check to the last call.
pub serve_bound :
    (rate : ℕ) (b : TokenBucket) (requests : List (ℕ × ℕ))
    → b.rate ≡ pos (suc rate)
    → Later b.last_check_at requests
    → (k : ℕ) × (b.last_check_at + k * suc rate ≤ last_call b.last_check_at requests)
      × ((serve b requests).0.last_check_at ≡ b.last_check_at + k * suc rate)
      × ((serve b requests).1 + (serve b requests).0.remaining ≤ b.remaining + k)
unfolding serve
serve_bound rate b [] e h = (0, omega arith, omega arith, omega arith)
serve_bound rate b ((now, amount) ∷ requests) e (le, later) =
    let r : TokenBucket × Bool = take now b amount in
    let p : ℕ = passed now b rate in
    let step : (r.0.rate ≡ b.rate)
        × (r.0.capacity ≡ b.capacity)
        × (r.0.last_check_at ≡ b.last_check_at + p * suc rate)
        × ((if r.1 then amount else 0) + r.0.remaining ≤ b.remaining + p) =
      rw (take-take_at now rate amount b e) (take_at_step now rate amount b le) in
    let small : p * suc rate ≤ now - b.last_check_at =
      div_mul_le (now - b.last_check_at) (suc rate) (omega arith) in
    let not_ahead : r.0.last_check_at ≤ now = omega arith in
    let (k, inside, at, bound) =
      serve_bound rate r.0 requests (step.0 ∙ e) (Later-weaken _ now requests not_ahead later) in
    let latest = last_call_mono r.0.last_check_at now requests not_ahead in
    (p + k, omega arith, omega arith, ground arith)

-- A bucket that never holds more than its capacity goes on so as long as the calls ask for one token.
take_one-capped :
    (now rate : ℕ) (b : TokenBucket)
    → b.rate ≡ pos (suc rate)
    → b.remaining ≤ b.capacity
    → (take now b 1).0.remaining ≤ (take now b 1).0.capacity
unfolding take_at
take_one-capped now rate b e h = rw (take-take_at now rate 1 b e) (ground arith)

-- A client that waits long enough is served: a request that finds a tick gone by since the last check for
-- each token that the bucket lacks is granted, as long as the sum fits in a `uint`.
pub take_patient :
    (now rate amount : ℕ) (b : TokenBucket)
    → b.rate ≡ pos (suc rate)
    → b.last_check_at + (amount - b.remaining) * suc rate ≤ now
    → b.remaining + (now - b.last_check_at) / suc rate < uint_mod
    → (take now b amount).1 ≡ true
unfolding take_at
take_patient now rate amount b e wait fits =
    let forward : ltb now b.last_check_at ≡ false = ground arith in
    let gained : amount - b.remaining ≤ passed now b rate =
      le-div_of_mul-le (amount - b.remaining) (now - b.last_check_at) (suc rate) (omega arith)
        (omega arith) in
    let whole : (b.remaining + passed now b rate) % uint_mod ≡ b.remaining + passed now b rate =
      mod-eq_of_lt fits in
    rw (take-take_at now rate amount b e, forward) (ground arith)
