-- ===== src/Session/Memory.antt =====
-- server/web/session/sess_mem.go: the store of sessions in memory. An element of `container/list` has
-- an identity, to which the map `sessions` points, as it does to `*list.Element`; `fresh` is the identity of the
-- next element to be made. Each method takes the time of its calls to `time.Now`, in seconds. A
-- method that releases the lock between its test and its act takes a state for each: `pder` at the
-- test and `later` at the act, which are the same where no other call comes between. A store that is
-- not in the list any more is not part of the state. The `SessionUpdate` that `SessionRead` and `SessionRegenerate` start in a
-- goroutine is a step of its own.
use beego.Common.{
  ℕ, zero, suc, ◌+◌, Bool, true, false, ltb, ◌==◌, if◌then◌else◌, List, [], ◌∷◌, Option, none, some,
  Text, reverse, length,
}
use beego.Common.Dict.{Dict, lookup, insert, erase}

pub record MemSessionStore : Type 0 where
  pub sid : Text
  pub time_accessed : ℕ
  pub value : Dict Text

unfoldable pub set : MemSessionStore → Text → Text → MemSessionStore
set st key value = record st { value = insert key value st.value }

-- `Get`, `none` for nil.
unfoldable pub get : MemSessionStore → Text → Option Text
get st key = lookup key st.value

unfoldable pub delete : MemSessionStore → Text → MemSessionStore
delete st key = record st { value = erase key st.value }

unfoldable pub flush : MemSessionStore → MemSessionStore
flush st = record st { value = [] }

unfoldable pub session_id : MemSessionStore → Text
session_id st = st.sid

-- `list.Element`
pub record Element : Type 0 where
  pub id : ℕ
  pub store : MemSessionStore

pub record MemProvider : Type 0 where
  pub sessions : Dict ℕ
  pub list : List Element
  pub fresh : ℕ
  pub max_lifetime : ℕ

unfoldable pub session_init : MemProvider → ℕ → MemProvider
session_init pder max_lifetime = record pder { max_lifetime = max_lifetime }

unfoldable pub find : ℕ → List Element → Option MemSessionStore
find id [] = none
find id (e ∷ es) = let rest = find id es in if e.id == id then some e.store else rest

-- `list.Remove`
unfoldable pub remove : ℕ → List Element → List Element
remove id [] = []
remove id (e ∷ es) = let rest = remove id es in if e.id == id then rest else e ∷ rest

-- A write through the pointer that an element holds.
unfoldable pub update : ℕ → (MemSessionStore → MemSessionStore) → List Element → List Element
update id f [] = []
update id f (e ∷ es) =
    let rest = update id f es in
    if e.id == id then record e { store = f e.store } ∷ rest else e ∷ rest

-- `list.MoveToFront`
unfoldable pub move_to_front : ℕ → List Element → List Element
move_to_front id es = elim (find id es) [
  | none ↦ es
  | some st ↦ record { id = id; store = st } ∷ remove id es
]

abbrev pub new_session : Text → ℕ → MemSessionStore
new_session sid now = record { sid = sid; time_accessed = now; value = [] }

-- `PushFront` of a new session and its entry in the map.
unfoldable pub push_new : MemProvider → Text → ℕ → MemProvider
push_new pder sid now = record pder {
  sessions = insert sid pder.fresh pder.sessions;
  list = record { id = pder.fresh; store = new_session sid now } ∷ pder.list;
  fresh = suc pder.fresh;
}

-- The result is the identity of the session, that is, the pointer to its store.
unfoldable pub session_read : ℕ → MemProvider → MemProvider → Text → MemProvider × ℕ
session_read now pder later sid = elim (lookup sid pder.sessions) [
  | some element ↦ (later, element)
  | none ↦ (push_new later sid now, later.fresh)
]

unfoldable pub session_exist : MemProvider → Text → Bool
session_exist pder sid = elim (lookup sid pder.sessions) [ some _ ↦ true | none ↦ false ]

-- The entries and the id of an element that a new session id gets.
unfoldable pub rename : MemProvider → ℕ → Text → Text → MemProvider
rename later element oldsid sid = record later {
  sessions = erase oldsid (insert sid element later.sessions);
  list = update element (λ st. record st { sid = sid }) later.list;
}

unfoldable pub session_regenerate : ℕ → MemProvider → MemProvider → Text → Text → MemProvider × ℕ
session_regenerate now pder later oldsid sid = elim (lookup oldsid pder.sessions) [
  | some element ↦ (rename later element oldsid sid, element)
  | none ↦ (push_new later sid now, later.fresh)
]

unfoldable pub session_destroy : MemProvider → Text → MemProvider
session_destroy pder sid = elim (lookup sid pder.sessions) [
  | some element ↦ record pder {
    sessions = erase sid pder.sessions;
    list = remove element pder.list;
  }
  | none ↦ pder
]

-- What `SessionGC` does under its read lock: the last element of the list, if it has expired.
unfoldable pub gc_test : ℕ → MemProvider → Option Element
gc_test now pder = elim (reverse pder.list) [
  | [] ↦ none
  | e ∷ es ↦ if ltb (e.store.time_accessed + pder.max_lifetime) now then some e else none
]

-- What it then does under its write lock: the element is removed, which does nothing to one that is not
-- in the list any more, with the entry of the session id that its store has at that time.
unfoldable pub gc_remove : MemProvider → ℕ → Text → MemProvider
gc_remove later element sid = record later {
  list = remove element later.list;
  sessions = erase sid later.sessions;
}

-- The loop of a `SessionGC` that no other call interrupts, on fuel; its calls to `time.Now` are numbered
-- from `k`.
unfoldable pub gc_loop : (ℕ → ℕ) → ℕ → ℕ → MemProvider → MemProvider
gc_loop clock zero k pder = pder
gc_loop clock (suc n) k pder = elim (gc_test (clock k) pder) [
  | none ↦ pder
  | some e ↦ gc_loop clock n (suc k) (gc_remove pder e.id e.store.sid)
]

-- Each round removes an element, so that the length of the list is enough.
unfoldable pub session_gc : (ℕ → ℕ) → MemProvider → MemProvider
session_gc clock pder = gc_loop clock (length pder.list) 0 pder

unfoldable pub session_all : MemProvider → ℕ
session_all pder = length pder.list

unfoldable pub session_update : ℕ → MemProvider → Text → MemProvider
session_update now pder sid = elim (lookup sid pder.sessions) [
  | some element ↦ record pder {
    list =
        move_to_front element (update element (λ st. record st { time_accessed = now }) pder.list);
  }
  | none ↦ pder
]
