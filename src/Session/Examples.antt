-- ===== src/Session/Examples.antt =====
-- The theorems on the session store at concrete inputs.
use beego.Common.{
  ℕ, ◌+◌, ◌≡◌, ◌⊎◌, refl, none, some, true, false, codes, arith, reverse, [], length,
}
use beego.Common.Dict.{lookup, insert, erase}
use beego.Session.Memory.{
  Element, MemProvider, find, remove, session_read, session_regenerate, session_destroy,
  session_exist, session_update, session_gc, gc_loop, gc_test, gc_remove, push_new, new_session,
}
use beego.Session.Collect.{expired}
use beego.Session.Index.{mapped}
use beego.Session.Rename.{session_regenerate_lem, session_regenerate_same}
use beego.Session.Order.{keep}
use beego.Session.Steps.{Reach, here, next, read, started, destroy_all}
use beego.Session.Sweep.{swept}
use beego.Session.Reach.{Holds, Reach-Holds, Reach-session_gc}
use beego.Session.Interleaved.{Run, begun, section, read_section, InOrder, Run-gc_test}
use beego.Session.Races.{session_read_race, session_gc_race}

abbrev empty : MemProvider
empty = record { sessions = []; list = []; fresh = 0; max_lifetime = 60 }

abbrev one : MemProvider
one = (session_read 1000 empty empty (codes "abc")).0

session_regenerate_lem_example :
    (lookup (codes "def") (session_regenerate 1010 one one (codes "abc") (codes "def")).0.sessions
      ≡ some 0)
    × (find 0 (session_regenerate 1010 one one (codes "abc") (codes "def")).0.list
        ≡ mapped (λ st. record st { sid = codes "def" }) (find 0 one.list))
    × (session_exist (session_regenerate 1010 one one (codes "abc") (codes "def")).0 (codes "abc")
        ≡ false)
    × (lookup (codes "xyz") (session_regenerate 1010 one one (codes "abc") (codes "def")).0.sessions
        ≡ lookup (codes "xyz") one.sessions)
unfolding session_read push_new lookup insert
session_regenerate_lem_example =
    session_regenerate_lem 1010 one (codes "abc") (codes "def") (codes "xyz") 0 refl refl refl refl

session_regenerate_same_example :
    (session_exist (session_regenerate 1010 one one (codes "abc") (codes "abc")).0 (codes "abc")
      ≡ false)
    × (find 0 (session_regenerate 1010 one one (codes "abc") (codes "abc")).0.list
        ≡ mapped (λ st. record st { sid = codes "abc" }) (find 0 one.list))
unfolding session_read push_new lookup insert
session_regenerate_same_example = session_regenerate_same 1010 one (codes "abc") 0 refl

abbrev two : MemProvider
two = (session_read 1010 one one (codes "def")).0

two-Reach : Reach 60 1010 two
two-Reach =
    next (next (here 1000) (read 1000 1000 empty (codes "abc") (omega arith)))
      (read 1000 1010 one (codes "def") (omega arith))

Reach-Holds_example : Holds 1010 two
Reach-Holds_example = Reach-Holds two-Reach

-- A clock that reads a second more each time.
abbrev ticking : ℕ → ℕ
ticking k = 1065 + k

Reach-session_gc_example :
    ((session_gc ticking two).list
      ≡ keep (ticking (length (swept ticking 60 0 (reverse two.list)))) 60 two.list)
    × (session_gc ticking two ≡ destroy_all (swept ticking 60 0 (reverse two.list)) two)
unfolding session_read push_new lookup insert
Reach-session_gc_example = Reach-session_gc ticking (λ i j h. omega arith) two-Reach

two-session_gc : session_gc ticking two ≡ session_destroy two (codes "abc")
unfolding session_read push_new lookup insert session_gc gc_loop gc_test gc_remove session_destroy
    remove erase
two-session_gc = refl

-- Two reads of one id that both test before either acts.
abbrev begin : MemProvider
begin = started 60

abbrev first_read : MemProvider
first_read = (session_read 1000 begin begin (codes "abc")).0

abbrev raced : MemProvider
raced = (session_read 1010 begin first_read (codes "abc")).0

raced-Run : Run 60 1010 raced
raced-Run =
    section (section (begun 1000) (read_section 1000 1000 begin begin (codes "abc") (omega arith)))
      (read_section 1000 1010 begin first_read (codes "abc") (omega arith))

Run-gc_test_example :
    InOrder 1010 raced
    × (((gc_test 1065 raced ≡ none) × (keep 1065 60 raced.list ≡ raced.list))
        ⊎ ((e : Element) × (gc_test 1065 raced ≡ some e)
            × (find e.id raced.list ≡ some e.store)
            × (expired 1065 60 e ≡ true)))
unfolding session_read push_new lookup
Run-gc_test_example = Run-gc_test 1065 raced-Run

session_read_race_example :
    ((session_read 1000 empty empty (codes "abc")).1 ≡ 0)
    × ((session_read 1001 empty (session_read 1000 empty empty (codes "abc")).0 (codes "abc")).1
        ≡ 1)
    × (find 0
          (session_read 1001 empty
            (session_read 1000 empty empty (codes "abc")).0
            (codes "abc")).0.list
        ≡ some (new_session (codes "abc") 1000))
    × (find 1
          (session_read 1001 empty
            (session_read 1000 empty empty (codes "abc")).0
            (codes "abc")).0.list
        ≡ some (new_session (codes "abc") 1001))
    × (lookup
          (codes "abc")
          (session_read 1001 empty
            (session_read 1000 empty empty (codes "abc")).0
            (codes "abc")).0.sessions
        ≡ some 1)
unfolding lookup
session_read_race_example = session_read_race 1000 1001 empty (codes "abc") refl

abbrev oldest : Element
oldest = record { id = 0; store = new_session (codes "abc") 1000 }

session_gc_race_example :
    (find 0 (session_update 1065 two (codes "abc")).list
      ≡ some (record { sid = codes "abc"; time_accessed = 1065; value = [] }))
    × (expired 1065 60 (record oldest { store = new_session (codes "abc") 1065 }) ≡ false)
    × (find 0 (gc_remove (session_update 1065 two (codes "abc")) 0 (codes "abc")).list ≡ none)
    × (session_exist
          (gc_remove (session_update 1065 two (codes "abc")) 0 (codes "abc"))
          (codes "abc")
        ≡ false)
unfolding session_read push_new lookup insert gc_test find
session_gc_race_example = session_gc_race 1065 1065 two oldest (Reach-Holds two-Reach).0 refl
