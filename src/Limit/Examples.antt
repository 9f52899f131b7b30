-- ===== src/Limit/Examples.antt =====
-- The theorems on the rate limiter at concrete inputs.
use beego.Common.{ℕ, suc, ◌+◌, ◌*◌, ◌≤◌, ◌≡◌, refl, true, List, [], ◌∷◌, codes, Text, arith}
use beego.Common.Int.{pos}
use beego.Common.Dict.{lookup}
use beego.Limit.Bucket.{TokenBucket, take}
use beego.Limit.Bucket.Bounds.{serve, serve_bound, take_patient}
use beego.Limit.Limiter.{default_limiter}
use beego.Limit.Limiter.Sessions.{
  Section, get_section, take_section, answers, solo, of_key, answers-solo,
}

abbrev bucket : TokenBucket
bucket = record { remaining = 1; capacity = 2; last_check_at = 100; rate = pos 10 }

abbrev requests : List (ℕ × ℕ)
requests = (105, 1) ∷ (106, 1) ∷ (121, 1) ∷ []

serve_bound_example :
    (k : ℕ) × (100 + k * suc 9 ≤ 121)
    × ((serve bucket requests).0.last_check_at ≡ 100 + k * suc 9)
    × ((serve bucket requests).1 + (serve bucket requests).0.remaining ≤ 1 + k)
serve_bound_example = serve_bound 9 bucket requests refl (omega arith)

take_patient_example : (take 120 bucket 3).1 ≡ true
take_patient_example = take_patient 120 9 3 bucket refl (omega arith) (omega arith)

abbrev alice : Text
alice = codes "alice"

abbrev bob : Text
bob = codes "bob"

-- Both requests of alice look before either comes to create her bucket.
abbrev sections : List Section
sections =
    get_section 1 default_limiter alice
    ∷ get_section 2 default_limiter bob
    ∷ take_section 3 alice
    ∷ get_section 4 default_limiter alice
    ∷ take_section 5 alice
    ∷ take_section 6 bob
    ∷ []

answers-solo_example :
    answers alice default_limiter sections
    ≡ solo 100 (pos 10_000_000) (lookup alice []) (of_key alice sections)
answers-solo_example = answers-solo alice default_limiter sections
