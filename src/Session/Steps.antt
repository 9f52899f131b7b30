-- ===== src/Session/Steps.antt =====
-- server/web/session/sess_mem.go: what the calls of `MemProvider` can reach, each of which is over before the
-- next begins, by a clock that does not run backwards.
use beego.Common.{
  ℕ, ◌≤◌, ◌==◌, ◌≡◌, refl, false, List, [], ◌∷◌, ◌++◌, none, some, if◌then◌else◌, arith, Text,
  Bool-cases, Option-cases, inl, inr,
}
use beego.Common.Dict.{lookup, erase}
use beego.Session.Memory.{
  MemSessionStore, Element, MemProvider, find, remove, update, move_to_front, set, session_read,
  session_regenerate, session_destroy, session_update, session_gc,
}
use beego.Session.Index.{IsValid, find-remove, find-update, session_destroy-IsValid}

-- A call that no other call interrupts, at the time `now`, by a clock that stood at `t`. A write of a value goes through the pointer
-- that `SessionRead` gave.
pub data Step : ℕ → MemProvider → ℕ → MemProvider → Type 0 where
  read :
      (t now : ℕ) (pder : MemProvider) (sid : Text)
      → t ≤ now
      → Step t pder now (session_read now pder pder sid).0
  refresh :
      (t now : ℕ) (pder : MemProvider) (sid : Text)
      → t ≤ now
      → Step t pder now (session_update now pder sid)
  regenerate :
      (t now : ℕ) (pder : MemProvider) (oldsid sid : Text)
      → t ≤ now
      → lookup sid pder.sessions ≡ none
      → Step t pder now (session_regenerate now pder pder oldsid sid).0
  destroy :
      (t now : ℕ) (pder : MemProvider) (sid : Text)
      → t ≤ now
      → Step t pder now (session_destroy pder sid)
  write :
      (t now : ℕ) (pder : MemProvider) (i : ℕ) (key value : Text)
      → t ≤ now
      → Step t pder now (record pder { list = update i (λ st. set st key value) pder.list })
  collect :
      (t now : ℕ) (clock : ℕ → ℕ) (pder : MemProvider)
      → t ≤ now
      → Step t pder now (session_gc clock pder)

abbrev pub started : ℕ → MemProvider
started max_lifetime = record { sessions = []; list = []; fresh = 0; max_lifetime = max_lifetime }

-- From `SessionInit`.
pub data Reach (max_lifetime : ℕ) : ℕ → MemProvider → Type 0 where
  here : (t : ℕ) → Reach max_lifetime t (started max_lifetime)
  next :
      {t now : ℕ} {pder after : MemProvider}
      → Reach max_lifetime t pder
      → Step t pder now after
      → Reach max_lifetime now after

-- Each identity stands once in the list.
abbrev pub Unique : List Element → Type 0
Unique [] = Unit
Unique (e ∷ es) = (find e.id es ≡ none) × Unique es

pub remove-Unique : (i : ℕ) (es : List Element) → Unique es → Unique (remove i es)
unfolding remove find
remove-Unique i [] u = tt
remove-Unique i (e ∷ es) (absent, u) = elim (Bool-cases (e.id == i)) [
  | inl same ↦ rw same (remove-Unique i es u)
  | inr other ↦ rw other (ground (arith, find-remove i e.id es), remove-Unique i es u)
]

pub update-Unique :
    (i : ℕ) (f : MemSessionStore → MemSessionStore) (es : List Element)
    → Unique es
    → Unique (update i f es)
unfolding update find
update-Unique i f [] u = tt
update-Unique i f (e ∷ es) (absent, u) =
    let gone : find e.id (update i f es) ≡ none = ground (arith, find-update i e.id f es) in
    elim (Bool-cases (e.id == i)) [
      | inl same ↦ rw same (gone, update-Unique i f es u)
      | inr other ↦ rw other (gone, update-Unique i f es u)
    ]

pub move_to_front-Unique : (i : ℕ) (es : List Element) → Unique es → Unique (move_to_front i es)
unfolding move_to_front
move_to_front-Unique i es u = elim (Option-cases (find i es)) [
  | inl e ↦ rw (move_to_front, e) u
  | inr (st, e) ↦ rw (move_to_front, e) (ground (arith, find-remove i i es), remove-Unique i es u)
]

pub find-append :
    (i : ℕ) (es : List Element) (e : Element)
    → find i es ≡ none
    → find i (es ++ (e ∷ [])) ≡ (if e.id == i then some e.store else none)
unfolding find
find-append i [] e h = refl
find-append i (d ∷ es) e h = ground (arith, find-append i es e)

absent-append :
    (i : ℕ) (es : List Element) (e : Element)
    → find i (es ++ (e ∷ [])) ≡ none
    → (find i es ≡ none) × (e.id == i ≡ false)
unfolding find
absent-append i [] e h = (refl, ground arith)
absent-append i (d ∷ es) e h = ground (arith, absent-append i es e)

pub Unique-last :
    (es : List Element) (e : Element) → Unique (es ++ (e ∷ [])) → (find e.id es ≡ none) × Unique es
unfolding find
Unique-last [] e u = (refl, tt)
Unique-last (d ∷ es) e (absent, u) =
    let (fresh, v) = Unique-last es e u in
    let (gone, other) = absent-append d.id es e absent in (ground arith, (gone, v))

remove-absent : (i : ℕ) (es : List Element) → find i es ≡ none → remove i es ≡ es
unfolding find remove
remove-absent i [] h = refl
remove-absent i (d ∷ es) h = ground (arith, remove-absent i es)

pub remove-last :
    (es : List Element) (e : Element) → find e.id es ≡ none → remove e.id (es ++ (e ∷ [])) ≡ es
unfolding find remove
remove-last [] e h = ground arith
remove-last (d ∷ es) e h = ground (arith, remove-last es e)

abbrev pub destroy_all : List Text → MemProvider → MemProvider
destroy_all [] pder = pder
destroy_all (sid ∷ sids) pder = destroy_all sids (session_destroy pder sid)

abbrev pub Agrees : MemProvider → Type 0
Agrees pder = IsValid pder × Unique pder.list

pub destroyed :
    (pder : MemProvider) (sid : Text) (i : ℕ)
    → lookup sid pder.sessions ≡ some i
    → session_destroy pder sid
      ≡ record pder { sessions = erase sid pder.sessions; list = remove i pder.list }
unfolding session_destroy
destroyed pder sid i e = rw (session_destroy, e) refl

pub destroy-Agrees :
    (pder : MemProvider) (sid : Text) → Agrees pder → Agrees (session_destroy pder sid)
unfolding session_destroy
destroy-Agrees pder sid (valid, u) = (
  session_destroy-IsValid pder sid valid,
  elim (Option-cases (lookup sid pder.sessions)) [
    | inl e ↦ rw (session_destroy, e) u
    | inr (i, e) ↦ rw (session_destroy, e) (remove-Unique i pder.list u)
  ],
)

pub destroy_all-Agrees :
    (sids : List Text) (pder : MemProvider) → Agrees pder → Agrees (destroy_all sids pder)
destroy_all-Agrees [] pder a = a
destroy_all-Agrees (sid ∷ sids) pder a =
    destroy_all-Agrees sids (session_destroy pder sid) (destroy-Agrees pder sid a)
