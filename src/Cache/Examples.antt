-- ===== src/Cache/Examples.antt =====
-- The theorems on the memory cache and its counters at concrete inputs.
use beego.Common.{
  ◌≡◌, refl, ◌≢◌, ◌⊎◌, true, false, leb, if◌then◌else◌, [], ◌∷◌, none, some, codes, arith, ◌+◌,
}
use beego.Common.Int.{pos, ◌+ℤ◌, ◌-ℤ◌, ◌≤ℤ◌}
use beego.Common.Dict.{lookup}
use beego.Cache.Counter.{
  Value, int, int32, uint32, ok, err, incr, decr, increment_overflow, decrement_overflow, max_int32,
}
use beego.Cache.Counter.Laws.{with_number, incr_lem, decr_lem}
use beego.Cache.Memory.{
  MemoryItem, MemoryCache, done, failed, key_expired, key_not_exist, is_expire, get, put,
  change_key, vacuum_round,
}
use beego.Cache.Memory.Views.{
  view, get-put, vacuum_round_lem, alive, vacuum_round_race, change_key_lem,
}

abbrev old_item : MemoryItem
old_item = record { val = int (pos 7); created_time = 100; lifespan = pos 50 }

abbrev kept_item : MemoryItem
kept_item = record { val = uint32 4_294_967_295; created_time = 100; lifespan = pos 0 }

abbrev cache : MemoryCache
cache = record {
  dur = pos 60;
  items = (codes "old", old_item) ∷ (codes "kept", kept_item) ∷ [];
  every = pos 60;
}

get-put_example : get 180 (put 110 cache (codes "new") (int (pos 1)) (pos 60)) (codes "new") ≡ (
    if true
    then (if leb 180 (110 + 60) then done (int (pos 1)) else failed key_expired)
    else get 180 cache (codes "new"))
get-put_example =
    get-put 110 180 60 cache (codes "new") (codes "new") (int (pos 1)) (omega arith) (omega arith)

vacuum_round_lem_example :
    (lookup (codes "old") (vacuum_round 200 cache cache).items
      ≡ alive 200 (lookup (codes "old") cache.items))
    × (view (vacuum_round 200 cache cache) 300 (codes "old") ≡ view cache 300 (codes "old"))
unfolding lookup
vacuum_round_lem_example =
    vacuum_round_lem 200 300 cache (codes "old") (refl, (refl, tt)) (omega arith)

vacuum_round_race_example :
    get 201
      (vacuum_round 200 cache (put 200 cache (codes "old") (int (pos 8)) (pos 0)))
      (codes "old")
    ≡ failed key_not_exist
unfolding lookup is_expire
vacuum_round_race_example =
    vacuum_round_race 200 201 cache (codes "old") old_item (int (pos 8)) (pos 0) (refl, (refl, tt))
      refl refl

change_key_lem_example :
    (((change_key incr cache (codes "old")).0 ≡ cache)
      × ((change_key incr cache (codes "old")).1 ≢ none))
    ⊎ ((itm : MemoryItem) × (w : Value) × (lookup (codes "old") cache.items ≡ some itm)
        × (incr itm.val ≡ ok w)
        × ((change_key incr cache (codes "old")).1 ≡ none)
        × (lookup (codes "kept") (change_key incr cache (codes "old")).0.items
            ≡ (if false then some (record itm { val = w }) else lookup (codes "kept") cache.items)))
change_key_lem_example = change_key_lem incr cache (codes "old") (codes "kept")

incr_lem_example :
    ((max_int32 ≡ max_int32) × (incr (int32 max_int32) ≡ err increment_overflow))
    ⊎ ((max_int32 +ℤ pos 1 ≤ℤ max_int32)
        × (incr (int32 max_int32) ≡ ok (int32 (max_int32 +ℤ pos 1))))
incr_lem_example = incr_lem (int32 max_int32) (omega arith)

decr_lem_example :
    ((pos 0 ≡ pos 0) × (decr (uint32 0) ≡ err decrement_overflow))
    ⊎ ((pos 0 ≤ℤ pos 0 -ℤ pos 1) × (decr (uint32 0) ≡ ok (with_number (uint32 0) (pos 0 -ℤ pos 1))))
decr_lem_example = decr_lem (uint32 0) (omega arith)
