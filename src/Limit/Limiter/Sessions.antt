-- ===== src/Limit/Limiter/Sessions.antt =====
-- The limiter of limiter.go gives each session key a bucket of its own, in whatever order the sections of
-- the requests come.
use beego.Common.{
  ℕ, ◌≡◌, refl, ap, sym, subst, Bool, true, if◌then◌else◌, Option, none, some, Text, text_eq,
  text_eq_iff, List, [], ◌∷◌, Bool-cases, Option-cases, inl, inr,
}
use beego.Common.Int.{ℤ}
use beego.Common.Dict.{Dict, lookup, lookup-insert}
use beego.Limit.Bucket.{TokenBucket, new_token_bucket, take}
use beego.Limit.Limiter.{Limiter, create_bucket, get_bucket, take_bucket}

-- The sections of requests, each with its time and session key: `get_section` is the `getBucket` of a request
-- that looked into the map when the limiter was in the state given, perhaps long ago, and `take_section`
-- asks the bucket for a token.
pub data Section : Type 0 where
  get_section : ℕ → Limiter → Text → Section
  take_section : ℕ → Text → Section

-- The answers under one key.
unfoldable pub answers : Text → Limiter → List Section → List Bool
answers k l [] = []
answers k l (get_section now tested key ∷ sections) =
    answers k (get_bucket now tested l key) sections
answers k l (take_section now key ∷ sections) =
    let (l', granted) = take_bucket now l key 1 in
    let later = answers k l' sections in if text_eq key k then granted ∷ later else later

-- The sections of one key.
abbrev pub of_key : Text → List Section → List Section
of_key k [] = []
of_key k (get_section now tested key ∷ sections) =
    let later = of_key k sections in
    if text_eq key k then get_section now tested key ∷ later else later
of_key k (take_section now key ∷ sections) =
    let later = of_key k sections in if text_eq key k then take_section now key ∷ later else later

abbrev made : ℕ → ℕ → ℤ → Option TokenBucket → Option TokenBucket
made now capacity rate none = some (new_token_bucket now capacity rate)
made now capacity rate (some b) = some b

-- What a request that has looked finds, or makes where it found none: the bucket that is there by then stays.
abbrev pub got : ℕ → ℕ → ℤ → Option TokenBucket → Option TokenBucket → Option TokenBucket
got now capacity rate (some found) b = b
got now capacity rate none b = made now capacity rate b

abbrev pub taken : ℕ → Option TokenBucket → Option TokenBucket
taken now none = none
taken now (some b) = some (take now b 1).0

abbrev pub answer : ℕ → Option TokenBucket → Bool
answer now none = true
answer now (some b) = (take now b 1).1

-- One bucket by itself, or none yet, and its answers: the first request that finds none makes it, and no later
-- one resets it.
unfoldable pub solo : ℕ → ℤ → Option TokenBucket → List Section → List Bool
solo capacity rate b [] = []
solo capacity rate b (get_section now tested key ∷ sections) =
    solo capacity rate (got now capacity rate (lookup key tested.buckets) b) sections
solo capacity rate b (take_section now key ∷ sections) =
    answer now b ∷ solo capacity rate (taken now b) sections

same_entry :
    (d : Dict TokenBucket) (key other : Text)
    → lookup other d ≡ (if text_eq key other then lookup key d else lookup other d)
same_entry d key other = elim (Bool-cases (text_eq key other)) [
  | inl same ↦ rw same (ap (λ x. lookup x d) (sym ((text_eq_iff key other).0 same)))
  | inr apart ↦ rw apart refl
]

create_bucket_lem :
    (now : ℕ) (l : Limiter) (key other : Text)
    → ((create_bucket now l key).0.capacity ≡ l.capacity)
      × ((create_bucket now l key).0.rate ≡ l.rate)
      × (lookup other (create_bucket now l key).0.buckets ≡ (
          if text_eq key other
          then made now l.capacity l.rate (lookup key l.buckets)
          else lookup other l.buckets))
unfolding create_bucket
create_bucket_lem now l key other = elim (Option-cases (lookup key l.buckets)) [
  | inl e ↦
      rw (create_bucket, e)
        (refl, refl, lookup-insert key other (new_token_bucket now l.capacity l.rate) l.buckets)
  | inr (b, e) ↦
      rw (create_bucket, e)
        (
          refl,
          refl,
          subst
              (λ x.
                lookup other l.buckets ≡ (if text_eq key other then x else lookup other l.buckets))
              e (same_entry l.buckets key other),
        )
]

get_bucket_lem :
    (now : ℕ) (tested l : Limiter) (key other : Text)
    → ((get_bucket now tested l key).capacity ≡ l.capacity)
      × ((get_bucket now tested l key).rate ≡ l.rate)
      × (lookup other (get_bucket now tested l key).buckets ≡ (
          if text_eq key other
          then got now l.capacity l.rate (lookup key tested.buckets) (lookup key l.buckets)
          else lookup other l.buckets))
unfolding get_bucket
get_bucket_lem now tested l key other = elim (Option-cases (lookup key tested.buckets)) [
  | inl e ↦ rw (get_bucket, e) (create_bucket_lem now l key other)
  | inr (b, e) ↦ rw (get_bucket, e) (refl, refl, same_entry l.buckets key other)
]

take_bucket_lem :
    (now : ℕ) (l : Limiter) (key other : Text)
    → ((take_bucket now l key 1).0.capacity ≡ l.capacity)
      × ((take_bucket now l key 1).0.rate ≡ l.rate)
      × ((take_bucket now l key 1).1 ≡ answer now (lookup key l.buckets))
      × (lookup other (take_bucket now l key 1).0.buckets ≡ (
          if text_eq key other then taken now (lookup key l.buckets) else lookup other l.buckets))
unfolding take_bucket
take_bucket_lem now l key other = elim (Option-cases (lookup key l.buckets)) [
  | inl e ↦
      rw (take_bucket, e)
        (
          refl,
          refl,
          refl,
          subst
              (λ x.
                lookup other l.buckets ≡ (if text_eq key other then x else lookup other l.buckets))
              e (same_entry l.buckets key other),
        )
  | inr (b, e) ↦
      rw (take_bucket, e) (refl, refl, refl, lookup-insert key other (take now b 1).0 l.buckets)
]

-- However the sections of the requests interleave, the answers under a session key are those of one token bucket
-- that meets the sections of that key alone: the first request to come after it found none makes it, those
-- that found none at the same time do not reset it, and no other key's requests touch it.
pub answers-solo :
    (k : Text) (l : Limiter) (sections : List Section)
    → answers k l sections ≡ solo l.capacity l.rate (lookup k l.buckets) (of_key k sections)
unfolding answers solo
answers-solo k l [] = refl
answers-solo k l (get_section now tested key ∷ sections) =
    let (cap, rate, state) = get_bucket_lem now tested l key k in
    let ih = answers-solo k (get_bucket now tested l key) sections in
    elim (Bool-cases (text_eq key k)) [
      | inl same ↦
          let e : key ≡ k = (text_eq_iff key k).0 same in
          rw (same, ih, state, same, cap, rate, e) refl
      | inr other ↦ rw (other, ih, state, other, cap, rate) refl
    ]
answers-solo k l (take_section now key ∷ sections) =
    let (cap, rate, granted, state) = take_bucket_lem now l key k in
    let ih = answers-solo k (take_bucket now l key 1).0 sections in
    elim (Bool-cases (text_eq key k)) [
      | inl same ↦
          let e : key ≡ k = (text_eq_iff key k).0 same in
          rw (same, ih, state, same, cap, rate, granted, e) refl
      | inr other ↦ rw (other, ih, state, other, cap, rate) refl
    ]
