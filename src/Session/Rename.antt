-- ===== src/Session/Rename.antt =====
-- server/web/session/sess_mem.go: `SessionRegenerate`.
use beego.Common.{
  ℕ, ◌≡◌, refl, false, if◌then◌else◌, none, some, arith, Text, text_eq, text_eq_iff, text_eq_refl,
  Bool-cases, Option-cases, inl, inr,
}
use beego.Common.Dict.{lookup, insert, erase, lookup-insert, lookup-erase}
use beego.Session.Memory.{
  MemSessionStore, MemProvider, find, update, rename, session_exist, session_regenerate,
}
use beego.Session.Index.{IsValid, Linked, Owned, mapped, find-update, push_new-IsValid}

abbrev named : Text → MemSessionStore → MemSessionStore
named sid st = record st { sid = sid }

renamed : MemProvider → Text → Text → ℕ → MemProvider
renamed pder oldsid sid i = record pder {
  sessions = erase oldsid (insert sid i pder.sessions);
  list = update i (named sid) pder.list;
}

lookup-renamed :
    (pder : MemProvider) (oldsid sid s : Text) (i : ℕ)
    → lookup s (renamed pder oldsid sid i).sessions ≡ (
        if text_eq oldsid s then none else if text_eq sid s then some i else lookup s pder.sessions)
unfolding renamed
lookup-renamed pder oldsid sid s i =
    ground (
      arith,
      lookup-erase oldsid s (insert sid i pder.sessions),
      lookup-insert sid s i pder.sessions,
    )

renamed-IsValid :
    (pder : MemProvider) (oldsid sid : Text) (i : ℕ)
    → lookup oldsid pder.sessions ≡ some i
    → lookup sid pder.sessions ≡ none
    → IsValid pder
    → IsValid (renamed pder oldsid sid i)
unfolding renamed
renamed-IsValid pder oldsid sid i e absent (linked, owned) = (new_linked, new_owned)
  where
    after : MemProvider
    after = renamed pder oldsid sid i

    new_linked : Linked (renamed pder oldsid sid i)
    new_linked s j h =
        let (st', f', same') = linked oldsid i e in
        elim (Bool-cases (text_eq sid s)) [
          | inl q ↦ (
            named sid st',
            ground
                (arith, lookup-renamed pder oldsid sid s i, find-update i j (named sid) pder.list),
            (text_eq_iff sid s).0 q,
          )
          | inr q ↦
              let old : lookup s pder.sessions ≡ some j =
                ground (arith, lookup-renamed pder oldsid sid s i) in
              let (st, f, same) = linked s j old in
              (
                st,
                ground (
                  arith,
                  lookup-renamed pder oldsid sid s i,
                  find-update i j (named sid) pder.list,
                  text_eq_iff oldsid s,
                ),
                same,
              )
        ]

    new_owned : Owned (renamed pder oldsid sid i)
    new_owned j st h = elim (Option-cases (find j pder.list)) [
      | inl f ↦ ground (arith, find-update i j (named sid) pder.list)
      | inr (st', f) ↦
          let (entry, young) = owned j st' f in
          (
            ground (
              arith,
              find-update i j (named sid) pder.list,
              lookup-renamed pder oldsid sid st.sid i,
              text_eq_iff sid st.sid,
              text_eq_iff oldsid st.sid,
              text_eq_iff oldsid sid,
            ),
            young,
          )
    ]

-- SessionRegenerate to a session id that no session has keeps the map and the list in agreement.
pub session_regenerate-IsValid :
    (now : ℕ) (pder : MemProvider) (oldsid sid : Text)
    → lookup sid pder.sessions ≡ none
    → IsValid pder
    → IsValid (session_regenerate now pder pder oldsid sid).0
unfolding renamed rename session_regenerate
session_regenerate-IsValid now pder oldsid sid absent valid =
    elim (Option-cases (lookup oldsid pder.sessions)) [
      | inl e ↦ rw (session_regenerate, e) (push_new-IsValid now pder sid absent valid)
      | inr (i, e) ↦ rw (session_regenerate, e) (renamed-IsValid pder oldsid sid i e absent valid)
    ]

moved :
    (now : ℕ) (pder : MemProvider) (oldsid sid : Text) (i : ℕ)
    → lookup oldsid pder.sessions ≡ some i
    → session_regenerate now pder pder oldsid sid ≡ (renamed pder oldsid sid i, i)
unfolding session_regenerate rename renamed
moved now pder oldsid sid i e = rw (session_regenerate, e) refl

-- SessionRegenerate that no other call interrupts, of a session to an id that no session has: the session, with its values, is now under the
-- new id, the old id has none, and every other id has the session that it had.
pub session_regenerate_lem :
    (now : ℕ) (pder : MemProvider) (oldsid sid other : Text) (i : ℕ)
    → lookup oldsid pder.sessions ≡ some i
    → lookup sid pder.sessions ≡ none
    → text_eq oldsid other ≡ false
    → text_eq sid other ≡ false
    → (lookup sid (session_regenerate now pder pder oldsid sid).0.sessions ≡ some i)
      × (find i (session_regenerate now pder pder oldsid sid).0.list
          ≡ mapped (λ st. record st { sid = sid }) (find i pder.list))
      × (session_exist (session_regenerate now pder pder oldsid sid).0 oldsid ≡ false)
      × (lookup other (session_regenerate now pder pder oldsid sid).0.sessions
          ≡ lookup other pder.sessions)
unfolding renamed session_exist
session_regenerate_lem now pder oldsid sid other i e absent h k =
    rw (moved now pder oldsid sid i e) (
      ground
          (arith, lookup-renamed pder oldsid sid sid i, text_eq_refl sid, text_eq_iff oldsid sid),
      rw (find-update i i (named sid) pder.list) (ground arith),
      gone,
      ground (arith, lookup-renamed pder oldsid sid other i),
    )
  where
    gone : session_exist (renamed pder oldsid sid i) oldsid ≡ false
    gone = ground (arith, lookup-renamed pder oldsid sid oldsid i, text_eq_refl oldsid)

-- SessionRegenerate that no other call interrupts, of a session to the id that it has, loses it: the map has no entry for it any more.
pub session_regenerate_same :
    (now : ℕ) (pder : MemProvider) (sid : Text) (i : ℕ)
    → lookup sid pder.sessions ≡ some i
    → (session_exist (session_regenerate now pder pder sid sid).0 sid ≡ false)
      × (find i (session_regenerate now pder pder sid sid).0.list
          ≡ mapped (λ st. record st { sid = sid }) (find i pder.list))
unfolding renamed session_exist
session_regenerate_same now pder sid i e =
    rw (moved now pder sid sid i e)
      (gone, rw (find-update i i (named sid) pder.list) (ground arith))
  where
    gone : session_exist (renamed pder sid sid i) sid ≡ false
    gone = ground (arith, lookup-renamed pder sid sid sid i, text_eq_refl sid)
