-- ===== src/Session/Races.antt =====
-- server/web/session/sess_mem.go: two calls of `MemProvider` whose sections interleave, where the second section
-- of a call does not test again what its first has found.
use beego.Common.{
  ℕ, suc, ◌==◌, ◌≡◌, refl, sym, ◌∙◌, true, false, List, [], ◌∷◌, none, some, arith, subst, reverse,
  Text, text_eq_refl, Bool-cases, inl, inr,
}
use mathlib.Core.List.{reverse-reverse}
use beego.Common.Dict.{lookup, insert, lookup-insert, lookup-erase}
use beego.Session.Memory.{
  Element, MemProvider, find, new_session, push_new, session_read, session_exist, session_update,
  gc_test, gc_remove,
}
use beego.Session.Collect.{expired}
use beego.Session.Index.{find-remove, find-update, find-move_to_front}
use beego.Session.Steps.{Unique, Agrees}
use beego.Session.Sweep.{gc_test-back, last-there}

read_new :
    (now : ℕ) (pder later : MemProvider) (sid : Text)
    → lookup sid pder.sessions ≡ none
    → session_read now pder later sid ≡ (push_new later sid now, later.fresh)
unfolding session_read
read_new now pder later sid absent = rw (session_read, absent) refl

gone-session_exist :
    (pder : MemProvider) (sid : Text)
    → lookup sid pder.sessions ≡ none
    → session_exist pder sid ≡ false
unfolding session_exist
gone-session_exist pder sid absent = rw (session_exist, absent) refl

-- Two SessionReads of one new id that both test before either acts: each gives its caller a session of its own, both
-- stand in the list, and the id leads to the second.
pub session_read_race :
    (first second : ℕ) (pder : MemProvider) (sid : Text)
    → lookup sid pder.sessions ≡ none
    → ((session_read first pder pder sid).1 ≡ pder.fresh)
      × ((session_read second pder (session_read first pder pder sid).0 sid).1 ≡ suc pder.fresh)
      × (find pder.fresh (session_read second pder (session_read first pder pder sid).0 sid).0.list
          ≡ some (new_session sid first))
      × (find
            (suc pder.fresh)
            (session_read second pder (session_read first pder pder sid).0 sid).0.list
          ≡ some (new_session sid second))
      × (lookup sid (session_read second pder (session_read first pder pder sid).0 sid).0.sessions
          ≡ some (suc pder.fresh))
unfolding push_new find
session_read_race first second pder sid absent =
    rw
      (
        read_new second pder (session_read first pder pder sid).0 sid absent,
        read_new first pder pder sid absent,
      )
      (
        refl,
        refl,
        ground arith,
        ground arith,
        lookup-insert sid sid (suc pder.fresh) (insert sid pder.fresh pder.sessions)
            ∙ rw (text_eq_refl sid) refl,
      )

gc_test-there :
    (now : ℕ) (pder : MemProvider) (e : Element) (back : List Element)
    → pder.list ≡ reverse back
    → Unique pder.list
    → gc_test now pder ≡ some e
    → find e.id pder.list ≡ some e.store
gc_test-there now pder e [] split u test =
    let none_there : gc_test now pder ≡ none = unfold gc_test in rw split refl in cc
gc_test-there now pder e (b ∷ back) split u test =
    let found = gc_test-back now pder b back split in
    elim (Bool-cases (expired now pder.max_lifetime b)) [
      | inr young ↦ let none_there : gc_test now pder ≡ none = rw (found, young) refl in cc
      | inl old ↦
          let some_there : gc_test now pder ≡ some b = rw (found, old) refl in
          let same : b ≡ e = cc in
          subst (λ x. find x.id pder.list ≡ some x.store) same (last-there pder b back split u).0
    ]

-- A SessionGC that finds a session expired, and a SessionUpdate of it before the removal: the session, which has then
-- been accessed and has not expired, is removed with its entry.
pub session_gc_race :
    (now later : ℕ) (pder : MemProvider) (e : Element)
    → Agrees pder
    → gc_test now pder ≡ some e
    → (find e.id (session_update later pder e.store.sid).list
        ≡ some (record e.store { time_accessed = later }))
      × (expired later pder.max_lifetime
            (record e { store = record e.store { time_accessed = later } })
          ≡ false)
      × (find e.id (gc_remove (session_update later pder e.store.sid) e.id e.store.sid).list ≡ none)
      × (session_exist
            (gc_remove (session_update later pder e.store.sid) e.id e.store.sid)
            e.store.sid
          ≡ false)
unfolding session_update gc_remove
session_gc_race now later pder e ((linked, owned), u) test =
    let there =
      gc_test-there now pder e (reverse pder.list) (sym (reverse-reverse pder.list)) u test in
    let entry = (owned e.id e.store there).0 in
    let self : (e.id == e.id) ≡ true = ground arith in
    rw (session_update, entry)
      (
        find-move_to_front e.id e.id _ ∙ find-update e.id e.id _ pder.list ∙ rw (self, there) refl,
        ground arith,
        find-remove e.id e.id _ ∙ rw self refl,
        gone-session_exist _ e.store.sid (
            lookup-erase e.store.sid e.store.sid pder.sessions
            ∙ rw (text_eq_refl e.store.sid) refl),
      )
