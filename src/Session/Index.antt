-- ===== src/Session/Index.antt =====
-- server/web/session/sess_mem.go: the map of session ids and the list of sessions agree.
use beego.Common.{
  ℕ, ◌<◌, ◌==◌, ◌≡◌, refl, ◌∙◌, if◌then◌else◌, List, [], ◌∷◌, Option, none, some, arith, Text,
  text_eq, text_eq_iff, text_eq_refl, Bool-cases, Option-cases, inl, inr,
}
use beego.Common.Dict.{lookup, erase, lookup-insert, lookup-erase}
use beego.Session.Memory.{
  MemSessionStore, Element, MemProvider, find, remove, update, move_to_front, new_session, push_new,
  session_read, session_destroy, session_update,
}

pub find-remove :
    (i j : ℕ) (es : List Element) → find j (remove i es) ≡ (if i == j then none else find j es)
unfolding find remove
find-remove i j [] = ground arith
find-remove i j (e ∷ es) = ground (arith, find-remove i j es)

abbrev pub mapped :
    (MemSessionStore → MemSessionStore) → Option MemSessionStore → Option MemSessionStore
mapped f none = none
mapped f (some st) = some (f st)

pub find-update :
    (i j : ℕ) (f : MemSessionStore → MemSessionStore) (es : List Element)
    → find j (update i f es) ≡ (if i == j then mapped f (find j es) else find j es)
unfolding find update
find-update i j f [] = ground arith
find-update i j f (e ∷ es) = ground (arith, find-update i j f es)

pub find-move_to_front : (i j : ℕ) (es : List Element) → find j (move_to_front i es) ≡ find j es
unfolding move_to_front find
find-move_to_front i j es = elim (Option-cases (find i es)) [
  | inl e ↦ rw (move_to_front, e) refl
  | inr (st, e) ↦ rw (move_to_front, e) (ground (arith, find-remove i j es))
]

-- Each entry of the map points to an element with its session id.
abbrev pub Linked : MemProvider → Type 0
Linked pder =
    (sid : Text) (i : ℕ)
    → lookup sid pder.sessions ≡ some i
    → (st : MemSessionStore) × (find i pder.list ≡ some st) × (st.sid ≡ sid)

-- Each element is the one that the map has for its session id.
abbrev pub Owned : MemProvider → Type 0
Owned pder =
    (i : ℕ) (st : MemSessionStore)
    → find i pder.list ≡ some st
    → (lookup st.sid pder.sessions ≡ some i) × (i < pder.fresh)

abbrev pub IsValid : MemProvider → Type 0
IsValid pder = Linked pder × Owned pder

pub push_new-IsValid :
    (now : ℕ) (pder : MemProvider) (sid : Text)
    → lookup sid pder.sessions ≡ none
    → IsValid pder
    → IsValid (push_new pder sid now)
unfolding push_new find
push_new-IsValid now pder sid absent (linked, owned) = (new_linked, new_owned)
  where
    new_linked : Linked (push_new pder sid now)
    new_linked s i h = elim (Bool-cases (text_eq sid s)) [
      | inl e ↦ (
        new_session sid now,
        ground (arith, lookup-insert sid s pder.fresh pder.sessions),
        (text_eq_iff sid s).0 e,
      )
      | inr e ↦
          let old : lookup s pder.sessions ≡ some i =
            ground (arith, lookup-insert sid s pder.fresh pder.sessions) in
          let (st, f, same) = linked s i old in (st, ground (arith, owned i st), same)
    ]

    new_owned : Owned (push_new pder sid now)
    new_owned i st h = elim (Bool-cases (pder.fresh == i)) [
      | inl e ↦ ground (arith, lookup-insert sid st.sid pder.fresh pder.sessions, text_eq_refl sid)
      | inr e ↦
          let found : find i pder.list ≡ some st = ground arith in
          let (entry, young) = owned i st found in
          (
            ground
                (arith, lookup-insert sid st.sid pder.fresh pder.sessions, text_eq_iff sid st.sid),
            omega arith,
          )
    ]

-- SessionRead that no other call interrupts, of a session id that there is or of a new one, keeps the map and the list in agreement.
pub session_read-IsValid :
    (now : ℕ) (pder : MemProvider) (sid : Text)
    → IsValid pder
    → IsValid (session_read now pder pder sid).0
unfolding session_read
session_read-IsValid now pder sid valid = elim (Option-cases (lookup sid pder.sessions)) [
  | inr (i, e) ↦ rw (session_read, e) valid
  | inl e ↦ rw (session_read, e) (push_new-IsValid now pder sid e valid)
]

destroyed : MemProvider → Text → ℕ → MemProvider
destroyed pder sid i = record pder { sessions = erase sid pder.sessions; list = remove i pder.list }

destroyed-IsValid :
    (pder : MemProvider) (sid : Text) (i : ℕ)
    → lookup sid pder.sessions ≡ some i
    → IsValid pder
    → IsValid (destroyed pder sid i)
unfolding destroyed
destroyed-IsValid pder sid i e (linked, owned) = (new_linked, new_owned)
  where
    new_linked : Linked (destroyed pder sid i)
    new_linked s j h =
        let old : lookup s pder.sessions ≡ some j =
          ground (arith, lookup-erase sid s pder.sessions) in
        let (st, f, same) = linked s j old in
        let (st', f', same') = linked sid i e in
        (
          st,
          ground (
            arith,
            find-remove i j pder.list,
            lookup-erase sid s pder.sessions,
            text_eq_iff sid s,
          ),
          same,
        )

    new_owned : Owned (destroyed pder sid i)
    new_owned j st h =
        let found : find j pder.list ≡ some st = ground (arith, find-remove i j pder.list) in
        let (entry, young) = owned j st found in
        (
          ground (
            arith,
            find-remove i j pder.list,
            lookup-erase sid st.sid pder.sessions,
            text_eq_iff sid st.sid,
          ),
          young,
        )

-- SessionDestroy keeps the map and the list in agreement.
pub session_destroy-IsValid :
    (pder : MemProvider) (sid : Text) → IsValid pder → IsValid (session_destroy pder sid)
unfolding destroyed session_destroy
session_destroy-IsValid pder sid valid = elim (Option-cases (lookup sid pder.sessions)) [
  | inl e ↦ rw (session_destroy, e) valid
  | inr (i, e) ↦ rw (session_destroy, e) (destroyed-IsValid pder sid i e valid)
]

abbrev touch : ℕ → MemSessionStore → MemSessionStore
touch now st = record st { time_accessed = now }

touched : ℕ → MemProvider → ℕ → MemProvider
touched now pder i = record pder { list = move_to_front i (update i (touch now) pder.list) }

touched-IsValid :
    (now : ℕ) (pder : MemProvider) (i : ℕ) → IsValid pder → IsValid (touched now pder i)
unfolding touched
touched-IsValid now pder i (linked, owned) = (new_linked, new_owned)
  where
    new_find :
        (j : ℕ)
        → find j (touched now pder i).list
          ≡ (if i == j then mapped (touch now) (find j pder.list) else find j pder.list)
    new_find j =
        find-move_to_front i j (update i (touch now) pder.list)
        ∙ find-update i j (touch now) pder.list

    new_linked : Linked (touched now pder i)
    new_linked s j h =
        let (st, f, same) = linked s j h in
        elim (Bool-cases (i == j)) [
          | inl e ↦ (touch now st, rw (new_find j, e, f) refl, same)
          | inr e ↦ (st, rw (new_find j, e) f, same)
        ]

    new_owned : Owned (touched now pder i)
    new_owned j st h = elim (Bool-cases (i == j)) [
      | inr e ↦ owned j st (ground (arith, new_find j))
      | inl e ↦ elim (Option-cases (find j pder.list)) [
        | inl f ↦ ground (arith, new_find j)
        | inr (st', f) ↦
            let same : st.sid ≡ st'.sid = ground (arith, new_find j) in rw same (owned j st' f)
      ]
    ]

-- SessionUpdate keeps the map and the list in agreement.
pub session_update-IsValid :
    (now : ℕ) (pder : MemProvider) (sid : Text)
    → IsValid pder
    → IsValid (session_update now pder sid)
unfolding touched session_update
session_update-IsValid now pder sid valid = elim (Option-cases (lookup sid pder.sessions)) [
  | inl e ↦ rw (session_update, e) valid
  | inr (i, e) ↦ rw (session_update, e) (touched-IsValid now pder i valid)
]
