-- ===== src/Cache/Memory/Views.antt =====
-- What the methods of the memory cache of client/cache/memory.go show to their callers.
use beego.Common.{
  ℕ, ◌+◌, ◌≤◌, ◌<◌, ◌≡◌, refl, ◌≢◌, Bool, true, false, leb, if◌then◌else◌, List, [], ◌∷◌, Option,
  none, some, Text, text_eq, text_eq_iff, arith, ◌⊎◌, inl, inr, Bool-cases, Option-cases, ◌||◌,
}
use beego.Common.Int.{ℤ, pos}
use beego.Common.Dict.{Dict, Distinct, lookup, lookup-insert, lookup-erase}
use beego.Cache.Counter.{Value, CalcError, CalcResult, ok, err}
use beego.Cache.Memory.{
  MemoryItem, MemoryCache, key_expired, key_not_exist, done, failed, is_expire, get, put, delete,
  store_result, change_key, expired_of, expired_keys, clear_items, vacuum_round,
}

abbrev holds : Text → List Text → Bool
holds k [] = false
holds k (key ∷ keys) = text_eq key k || holds k keys

-- What is expired stays expired.
is_expire_mono :
    (now later : ℕ) (mi : MemoryItem)
    → now ≤ later
    → is_expire now mi ≡ true
    → is_expire later mi ≡ true
unfolding is_expire
is_expire_mono now later mi h e = ground arith

-- The abstract state of a cache at a time: what it holds that has not expired.
abbrev pub alive : ℕ → Option MemoryItem → Option MemoryItem
alive now none = none
alive now (some itm) = if is_expire now itm then none else some itm

unfoldable pub view : MemoryCache → ℕ → Text → Option MemoryItem
view bc now key = alive now (lookup key bc.items)

-- A value that is put is returned until its lifespan is over, and then reported as expired; what is read
-- under other keys does not change.
pub get-put :
    (now later life : ℕ) (bc : MemoryCache) (key other : Text) (v : Value)
    → now ≤ later
    → 0 < life
    → get later (put now bc key v (pos life)) other ≡ (
        if text_eq key other
        then (if leb later (now + life) then done v else failed key_expired)
        else get later bc other)
unfolding get put is_expire
get-put now later life bc key other v h k = ground (
  arith,
  lookup-insert key other (record { val = v; created_time = now; lifespan = pos life }) bc.items,
)

expired_at : ℕ → Option MemoryItem → Bool
expired_at now none = false
expired_at now (some itm) = is_expire now itm

holds-expired_of :
    (now : ℕ) (key : Text) (items : Dict MemoryItem)
    → Distinct items
    → holds key (expired_of now items) ≡ expired_at now (lookup key items)
unfolding lookup expired_of expired_at
holds-expired_of now key [] d = refl
holds-expired_of now key ((j, itm) ∷ items) (absent, d) =
    let ih = holds-expired_of now key items d in
    elim (Bool-cases (text_eq j key)) [
      | inl same ↦
          let e : j ≡ key = (text_eq_iff j key).0 same in
          let gone : lookup key items ≡ none = rw e at absent in ground (arith, ih)
      | inr other ↦ ground (arith, ih)
    ]

lookup-clear_items :
    (bc : MemoryCache) (keys : List Text) (k : Text)
    → lookup k (clear_items bc keys).items ≡ (if holds k keys then none else lookup k bc.items)
unfolding clear_items delete
lookup-clear_items bc [] k = refl
lookup-clear_items bc (key ∷ keys) k =
    ground (arith, lookup-clear_items (delete bc key) keys k, lookup-erase key k bc.items)

-- A round of the vacuum that no other call interleaves removes exactly the items that have expired: under a key
-- the cache then holds the item that it held, unless this had expired, and nothing else. What has not expired
-- at that time or later is the same as before.
pub vacuum_round_lem :
    (now later : ℕ) (bc : MemoryCache) (key : Text)
    → Distinct bc.items
    → now ≤ later
    → (lookup key (vacuum_round now bc bc).items ≡ alive now (lookup key bc.items))
      × (view (vacuum_round now bc bc) later key ≡ view bc later key)
unfolding view vacuum_round expired_keys expired_at
vacuum_round_lem now later bc key d h = elim (Option-cases (lookup key bc.items)) [
  | inl absent ↦ (ground (arith, listed, cleared), ground (arith, listed, cleared))
  | inr (itm, found) ↦ (
    ground (arith, listed, cleared),
    ground (arith, listed, cleared, is_expire_mono now later itm h),
  )
]
  where
    listed : holds key (expired_of now bc.items) ≡ expired_at now (lookup key bc.items)
    listed = holds-expired_of now key bc.items d

    cleared :
        lookup key (clear_items bc (expired_of now bc.items)).items
        ≡ (if holds key (expired_of now bc.items) then none else lookup key bc.items)
    cleared = lookup-clear_items bc (expired_of now bc.items) key

-- Between the two halves of a round, `expiredKeys` and `clearItems`, another call may put a new value under
-- a key that had expired: the round then deletes the new value, although it has not expired.
pub vacuum_round_race :
    (now later : ℕ) (bc : MemoryCache) (key : Text) (old : MemoryItem) (v : Value) (life : ℤ)
    → Distinct bc.items
    → lookup key bc.items ≡ some old
    → is_expire now old ≡ true
    → get later (vacuum_round now bc (put now bc key v life)) key ≡ failed key_not_exist
unfolding get vacuum_round expired_keys expired_at
vacuum_round_race now later bc key old v life d found expired = ground (
  arith,
  holds-expired_of now key bc.items d,
  lookup-clear_items (put now bc key v life) (expired_of now bc.items) key,
)

CalcResult-cases : (r : CalcResult) → ((e : CalcError) × (r ≡ err e)) ⊎ ((v : Value) × (r ≡ ok v))
CalcResult-cases (err e) = inl (e, refl)
CalcResult-cases (ok v) = inr (v, refl)

-- `Incr` and `Decr` (the function that they call being `calc_fn`) change the value under one key alone and
-- neither when it was stored nor its lifespan; where they report an error, the cache is as it was.
pub change_key_lem :
    (calc_fn : Value → CalcResult) (bc : MemoryCache) (key other : Text)
    → (((change_key calc_fn bc key).0 ≡ bc) × ((change_key calc_fn bc key).1 ≢ none))
      ⊎ ((itm : MemoryItem) × (w : Value) × (lookup key bc.items ≡ some itm)
          × (calc_fn itm.val ≡ ok w)
          × ((change_key calc_fn bc key).1 ≡ none)
          × (lookup other (change_key calc_fn bc key).0.items ≡ (
              if text_eq key other then some (record itm { val = w }) else lookup other bc.items)))
unfolding change_key
change_key_lem calc_fn bc key other = elim (Option-cases (lookup key bc.items)) [
  | inl absent ↦ rw (absent, change_key) (inl (refl, λ e. cc))
  | inr (itm, found) ↦ elim (CalcResult-cases (calc_fn itm.val)) [
    | inl (e, bad) ↦ rw (found, bad, change_key, store_result) (inl (refl, λ e. cc))
    | inr (w, good) ↦ inr (
      itm,
      w,
      found,
      good,
      rw (found, good, change_key, store_result),
      rw (found, good, change_key, store_result) (lookup-insert key other _ bc.items),
    )
  ]
]
