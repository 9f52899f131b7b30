-- ===== src/Session/Reach.antt =====
-- server/web/session/sess_mem.go: what holds of `MemProvider` after any calls, and what `SessionGC` does then.
use beego.Common.{
  length, ◌≤◌, ℕ, ◌==◌, ◌≡◌, refl, List, [], ◌∷◌, none, arith, reverse, Text, Option-cases,
  Bool-cases, inl, inr,
}
use beego.Common.Dict.{lookup}
use beego.Session.Memory.{
  MemProvider, find, update, push_new, rename, set, session_read, session_regenerate,
  session_destroy, session_update, session_gc,
}
use beego.Session.Index.{
  IsValid, Linked, Owned, find-update, session_read-IsValid, session_update-IsValid,
}
use beego.Session.Rename.{session_regenerate-IsValid}
use beego.Session.Order.{
  Descending, Descending-later, remove-Descending, update-Descending, touch-Descending, keep,
}
use beego.Session.Steps.{
  Step, read, refresh, regenerate, destroy, write, collect, Reach, here, next, started, Unique,
  Agrees, update-Unique, move_to_front-Unique, destroy-Agrees, destroy_all,
}
use beego.Session.Sweep.{swept, session_gc-destroy_all, session_gc_lem}

-- The map and the list agree, each element stands once, and the latest access stands first.
abbrev pub Holds : ℕ → MemProvider → Type 0
Holds t pder = Agrees pder × Descending t pder.list

abbrev Ordered : ℕ → MemProvider → Type 0
Ordered t pder = Unique pder.list × Descending t pder.list

push_new-Ordered :
    (now : ℕ) (pder : MemProvider) (sid : Text)
    → IsValid pder
    → Ordered now pder
    → Ordered now (push_new pder sid now)
unfolding push_new
push_new-Ordered now pder sid (linked, owned) (u, d) = ((absent, u), (omega arith, d))
  where
    absent : find pder.fresh pder.list ≡ none
    absent = elim (Option-cases (find pder.fresh pder.list)) [
      | inl e ↦ e
      | inr (st, e) ↦ absurd (omega (arith, (owned pder.fresh st e).1))
    ]

read-Ordered :
    (now : ℕ) (pder : MemProvider) (sid : Text)
    → IsValid pder
    → Ordered now pder
    → Ordered now (session_read now pder pder sid).0
unfolding session_read
read-Ordered now pder sid valid o = elim (Option-cases (lookup sid pder.sessions)) [
  | inr (i, e) ↦ rw (session_read, e) o
  | inl e ↦ rw (session_read, e) (push_new-Ordered now pder sid valid o)
]

regenerate-Ordered :
    (now : ℕ) (pder : MemProvider) (oldsid sid : Text)
    → IsValid pder
    → Ordered now pder
    → Ordered now (session_regenerate now pder pder oldsid sid).0
unfolding session_regenerate rename
regenerate-Ordered now pder oldsid sid valid (u, d) =
    elim (Option-cases (lookup oldsid pder.sessions)) [
      | inl e ↦ rw (session_regenerate, e) (push_new-Ordered now pder sid valid (u, d))
      | inr (i, e) ↦
          rw (session_regenerate, e)
            (update-Unique i _ pder.list u, update-Descending i now _ pder.list (λ st. refl) d)
    ]

pub refresh-Ordered :
    (now : ℕ) (pder : MemProvider) (sid : Text)
    → Ordered now pder
    → Ordered now (session_update now pder sid)
unfolding session_update
refresh-Ordered now pder sid (u, d) = elim (Option-cases (lookup sid pder.sessions)) [
  | inl e ↦ rw (session_update, e) (u, d)
  | inr (i, e) ↦
      rw (session_update, e)
        (
          move_to_front-Unique i _ (update-Unique i _ pder.list u),
          touch-Descending i now pder.list d,
        )
]

pub destroy-Descending :
    (now : ℕ) (pder : MemProvider) (sid : Text)
    → Descending now pder.list
    → Descending now (session_destroy pder sid).list
unfolding session_destroy
destroy-Descending now pder sid d = elim (Option-cases (lookup sid pder.sessions)) [
  | inl e ↦ rw (session_destroy, e) d
  | inr (i, e) ↦ rw (session_destroy, e) (remove-Descending i now pder.list d)
]

destroy_all-Holds :
    (sids : List Text) (now : ℕ) (pder : MemProvider)
    → Holds now pder
    → Holds now (destroy_all sids pder)
destroy_all-Holds [] now pder holds = holds
destroy_all-Holds (sid ∷ sids) now pder (a, d) =
    destroy_all-Holds sids now (session_destroy pder sid)
      (destroy-Agrees pder sid a, destroy-Descending now pder sid d)

write-Agrees :
    (pder : MemProvider) (i : ℕ) (key value : Text)
    → Agrees pder
    → Agrees (record pder { list = update i (λ st. set st key value) pder.list })
unfolding set
write-Agrees pder i key value ((linked, owned), u) =
    ((new_linked, new_owned), update-Unique i _ pder.list u)
  where
    new_linked : Linked (record pder { list = update i (λ st. set st key value) pder.list })
    new_linked s j h =
        let (st, f, same) = linked s j h in
        elim (Bool-cases (i == j)) [
          | inl e ↦ (
            set st key value,
            rw (find-update i j (λ st. set st key value) pder.list, e, f) refl,
            same,
          )
          | inr e ↦ (st, rw (find-update i j (λ st. set st key value) pder.list, e) f, same)
        ]

    new_owned : Owned (record pder { list = update i (λ st. set st key value) pder.list })
    new_owned j st h = elim (Option-cases (find j pder.list)) [
      | inl f ↦ ground (arith, find-update i j (λ st. set st key value) pder.list)
      | inr (st', f) ↦
          let same : st.sid ≡ st'.sid =
            ground (arith, find-update i j (λ st. set st key value) pder.list) in
          rw same (owned j st' f)
    ]

Step-Holds :
    {t now : ℕ} {pder after : MemProvider} → Step t pder now after → Holds t pder → Holds now after
Step-Holds (read t now pder sid h) ((valid, u), d) =
    let (u', d') = read-Ordered now pder sid valid (u, Descending-later pder.list h d) in
    ((session_read-IsValid now pder sid valid, u'), d')
Step-Holds (refresh t now pder sid h) ((valid, u), d) =
    let (u', d') = refresh-Ordered now pder sid (u, Descending-later pder.list h d) in
    ((session_update-IsValid now pder sid valid, u'), d')
Step-Holds (regenerate t now pder oldsid sid h absent) ((valid, u), d) =
    let (u', d') =
      regenerate-Ordered now pder oldsid sid valid (u, Descending-later pder.list h d) in
    ((session_regenerate-IsValid now pder oldsid sid absent valid, u'), d')
Step-Holds (destroy t now pder sid h) (a, d) =
    (destroy-Agrees pder sid a, destroy-Descending now pder sid (Descending-later pder.list h d))
Step-Holds (write t now pder i key value h) (a, d) = (
  write-Agrees pder i key value a,
  update-Descending i now (λ st. set st key value) pder.list (λ st. unfold set in refl)
      (Descending-later pder.list h d),
)
Step-Holds (collect t now clock pder h) (a, d) = rw (session_gc-destroy_all clock pder a) (
    destroy_all-Holds (swept clock pder.max_lifetime 0 (reverse pder.list)) now pder
      (a, Descending-later pder.list h d))

started-Agrees : (max_lifetime : ℕ) → Agrees (started max_lifetime)
unfolding lookup find
started-Agrees max_lifetime = ((λ sid i h. cc, λ i st h. cc), tt)

-- After SessionInit and any calls that no other call interrupts, reads, updates, destructions, collections, writes of
-- values and regenerations to ids not in use, by a clock that does not run backwards, the map and the
-- list agree, each element stands once in the list, and the sessions stand in the order of their last access.
pub Reach-Holds :
    {max_lifetime t : ℕ} {pder : MemProvider} → Reach max_lifetime t pder → Holds t pder
Reach-Holds {max_lifetime} (here t) = (started-Agrees max_lifetime, tt)
Reach-Holds {max_lifetime} (next r s) = Step-Holds s (Reach-Holds r)

-- After SessionInit and any calls that no other call interrupts, as for `Reach-Holds`, a SessionGC that no other call
-- interrupts either, and that reads a clock that does not run backwards for each test, leaves, in their
-- order, exactly the sessions that have not expired at its last reading, the one after the removals,
-- although it stops at the first of these from the back; and it does what SessionDestroy would do for
-- each of the others.
pub Reach-session_gc :
    {max_lifetime t : ℕ} {pder : MemProvider} (clock : ℕ → ℕ)
    → ((i j : ℕ) → i ≤ j → clock i ≤ clock j)
    → Reach max_lifetime t pder
    → ((session_gc clock pder).list
        ≡ keep
            (clock (length (swept clock pder.max_lifetime 0 (reverse pder.list))))
            pder.max_lifetime
            pder.list)
      × (session_gc clock pder
          ≡ destroy_all (swept clock pder.max_lifetime 0 (reverse pder.list)) pder)
Reach-session_gc {t} {pder} clock mono r =
    let (a, d) = Reach-Holds r in session_gc_lem clock t pder mono a d
