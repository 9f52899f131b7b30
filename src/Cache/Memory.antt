-- ===== src/Cache/Memory.antt =====
-- client/cache/memory.go: `MemoryCache`. Each method takes the time of its call to `time.Now`, in
-- nanoseconds; the lock makes each of them but `GetMulti` and the vacuum one step.
pub mod Views
use beego.Common.{
  ℕ, ◌+◌, ◌*◌, Bool, true, false, not, ltb, leb, ◌==◌, if◌then◌else◌, List, [], ◌∷◌, Option, none,
  some, Text, codes,
}
use beego.Common.Int.{ℤ, pos, negsuc, ltb_ℤ, sub_ℕ}
use beego.Common.Dict.{Dict, lookup, insert, erase}
use beego.Cache.Counter.{Value, CalcError, CalcResult, ok, err, incr, decr}

pub record MemoryItem : Type 0 where
  pub val : Value
  pub created_time : ℕ
  pub lifespan : ℤ

pub record MemoryCache : Type 0 where
  pub dur : ℤ
  pub items : Dict MemoryItem
  pub every : ℤ

pub data CacheError : Type 0 where
  key_expired key_not_exist invalid_memory_cache_cfg : CacheError
  calc : CalcError → CacheError

-- The error of `GetMulti`: the keys that failed, each with its own error.
pub data MultiError : Type 0 where
  multi_get_failed : List (Text × CacheError) → MultiError

-- A Go result with an error that may be nil.
pub data Fallible (A : Type 0) : Type 0 where
  done : A → Fallible A
  failed : CacheError → Fallible A

abbrev pub is_zero : ℤ → Bool
is_zero (pos n) = n == 0
is_zero (negsuc n) = false

-- `isExpire` at the time `now`; the lifespan 0 means forever.
unfoldable pub is_expire : ℕ → MemoryItem → Bool
is_expire now mi =
    if is_zero mi.lifespan then false else ltb_ℤ mi.lifespan (sub_ℕ now mi.created_time)

abbrev pub new_memory_cache : MemoryCache
new_memory_cache = record { dur = pos 0; items = []; every = pos 0 }

unfoldable pub get : ℕ → MemoryCache → Text → Fallible Value
get now bc key = elim (lookup key bc.items) [
  | none ↦ failed key_not_exist
  | some itm ↦ if is_expire now itm then failed key_expired else done itm.val
]

-- The loop of `GetMulti`: the values, nil where there is none, and the errors.
pub record Multi : Type 0 where
  pub rc : List (Option Value)
  pub keys_err : List (Text × CacheError)

abbrev add_result : Text → Fallible Value → Multi → Multi
add_result ki (done val) m = record m { rc = some val ∷ m.rc }
add_result ki (failed e) m = record { rc = none ∷ m.rc; keys_err = (ki, e) ∷ m.keys_err }

-- Each round takes the lock anew, so that it has a time and a state of its own.
unfoldable pub get_each : List (ℕ × (MemoryCache × Text)) → Multi
get_each [] = record { rc = []; keys_err = [] }
get_each ((now, (bc, ki)) ∷ rounds) = add_result ki (get now bc ki) (get_each rounds)

abbrev multi_error : List (Text × CacheError) → Option MultiError
multi_error [] = none
multi_error (e ∷ es) = some (multi_get_failed (e ∷ es))

-- The values are returned beside the error.
unfoldable pub get_multi : List (ℕ × (MemoryCache × Text)) → List (Option Value) × Option MultiError
get_multi rounds = let m = get_each rounds in (m.rc, multi_error m.keys_err)

unfoldable pub put : ℕ → MemoryCache → Text → Value → ℤ → MemoryCache
put now bc key val timeout = record bc {
  items = insert key (record { val = val; created_time = now; lifespan = timeout }) bc.items;
}

unfoldable pub delete : MemoryCache → Text → MemoryCache
delete bc key = record bc { items = erase key bc.items }

-- `itm.val = val` through the pointer that the map holds.
store_result : MemoryCache → Text → MemoryItem → CalcResult → MemoryCache × Option CacheError
store_result bc key itm (ok val) =
    (record bc { items = insert key (record itm { val = val }) bc.items }, none)
store_result bc key itm (err e) = (bc, some (calc e))

-- `Incr` and `Decr`, by the function that they call.
unfoldable pub change_key :
    (Value → CalcResult) → MemoryCache → Text → MemoryCache × Option CacheError
unfolding store_result
change_key calc_fn bc key = elim (lookup key bc.items) [
  | none ↦ (bc, some key_not_exist)
  | some itm ↦ store_result bc key itm (calc_fn itm.val)
]

abbrev pub incr_key : MemoryCache → Text → MemoryCache × Option CacheError
incr_key = change_key incr

abbrev pub decr_key : MemoryCache → Text → MemoryCache × Option CacheError
decr_key = change_key decr

unfoldable pub is_exist : ℕ → MemoryCache → Text → Bool
is_exist now bc key = elim (lookup key bc.items) [ none ↦ false | some v ↦ not (is_expire now v) ]

unfoldable pub clear_all : MemoryCache → MemoryCache
clear_all bc = record bc { items = [] }

-- `StartAndGC`, the configuration being what `json.Unmarshal` made of the text, `none` for its error.
-- The interval is in seconds, the duration in nanoseconds; the vacuum then runs as `vacuum_round`.
abbrev with_interval : MemoryCache → ℤ → MemoryCache
with_interval bc (pos n) = record bc { dur = pos (n * 1_000_000_000); every = pos n }
with_interval bc (negsuc n) = record bc {
  dur = sub_ℕ 0 ((n + 1) * 1_000_000_000);
  every = negsuc n;
}

abbrev pub default_every : ℕ
default_every = 60

unfoldable pub start_and_gc : MemoryCache → Option (Dict ℤ) → Fallible MemoryCache
start_and_gc bc none = failed invalid_memory_cache_cfg
start_and_gc bc (some cf) = elim (lookup (codes "interval") cf) [
  | none ↦ done (with_interval bc (pos default_every))
  | some n ↦ done (with_interval bc n)
]

expired_of : ℕ → Dict MemoryItem → List Text
expired_of now [] = []
expired_of now ((key, itm) ∷ items) =
    let keys = expired_of now items in if is_expire now itm then key ∷ keys else keys

unfoldable pub expired_keys : ℕ → MemoryCache → List Text
unfolding expired_of
expired_keys now bc = expired_of now bc.items

unfoldable pub clear_items : MemoryCache → List Text → MemoryCache
clear_items bc [] = bc
clear_items bc (key ∷ keys) = clear_items (delete bc key) keys

-- One round of the loop of `vacuum`, which other methods may interleave: `expiredKeys` at the time
-- `now`, then `clearItems` in the state `later` that the cache has come to by then.
unfoldable pub vacuum_round : ℕ → MemoryCache → MemoryCache → MemoryCache
vacuum_round now bc later = clear_items later (expired_keys now bc)
