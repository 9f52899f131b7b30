-- ===== src/Session/Interleaved.antt =====
-- server/web/session/sess_mem.go: the sections of the calls of `MemProvider` under its lock, in any order.
use beego.Common.{
  ℕ, ◌≤◌, ◌≡◌, ◌⊎◌, refl, ap, sym, ◌∙◌, true, List, [], ◌∷◌, none, some, arith, reverse, Text,
  Bool-cases, Option-cases, inl, inr,
}
use mathlib.Core.List.{reverse-reverse}
use beego.Common.Dict.{lookup}
use beego.Session.Memory.{
  MemSessionStore, Element, MemProvider, find, remove, update, set, push_new, rename,
  session_regenerate, session_read, session_destroy, session_update, gc_test, gc_remove,
}
use beego.Session.Collect.{Ascending, expired, Ascending-AllLive}
use beego.Session.Index.{find-remove, find-update, find-move_to_front}
use beego.Session.Order.{
  Descending, Descending-later, remove-Descending, update-Descending, keep, keep_live,
  reverse_aux-Ascending, keep-reverse_aux,
}
use beego.Session.Steps.{Unique, started, remove-Unique, update-Unique}
use beego.Session.Sweep.{gc_test-back, last-there}
use beego.Session.Reach.{refresh-Ordered, destroy-Descending}

-- One section at the time `now`, by a clock that stood at `t`. A SessionRead or a SessionRegenerate acts on
-- what it found in the state `tested`, and a SessionGC removes the element that it found in an earlier
-- state; any may come here.
pub data Section : ℕ → MemProvider → ℕ → MemProvider → Type 0 where
  read_section :
      (t now : ℕ) (tested pder : MemProvider) (sid : Text)
      → t ≤ now
      → Section t pder now (session_read now tested pder sid).0
  regenerate_section :
      (t now : ℕ) (tested pder : MemProvider) (oldsid sid : Text)
      → t ≤ now
      → Section t pder now (session_regenerate now tested pder oldsid sid).0
  update_section :
      (t now : ℕ) (pder : MemProvider) (sid : Text)
      → t ≤ now
      → Section t pder now (session_update now pder sid)
  destroy_section :
      (t now : ℕ) (pder : MemProvider) (sid : Text)
      → t ≤ now
      → Section t pder now (session_destroy pder sid)
  write_section :
      (t now : ℕ) (pder : MemProvider) (i : ℕ) (key value : Text)
      → t ≤ now
      → Section t pder now (record pder { list = update i (λ st. set st key value) pder.list })
  remove_section :
      (t now : ℕ) (pder : MemProvider) (element : ℕ) (sid : Text)
      → t ≤ now
      → Section t pder now (gc_remove pder element sid)

-- From `SessionInit`, the sections of any calls, however they interleave.
pub data Run (max_lifetime : ℕ) : ℕ → MemProvider → Type 0 where
  begun : (t : ℕ) → Run max_lifetime t (started max_lifetime)
  section :
      {t now : ℕ} {pder after : MemProvider}
      → Run max_lifetime t pder
      → Section t pder now after
      → Run max_lifetime now after

-- No element has the identity of one that is still to be made.
abbrev pub Young : MemProvider → Type 0
Young pder = (i : ℕ) → pder.fresh ≤ i → find i pder.list ≡ none

abbrev pub InOrder : ℕ → MemProvider → Type 0
InOrder t pder = Unique pder.list × Descending t pder.list × Young pder

destroy-Unique :
    (pder : MemProvider) (sid : Text) → Unique pder.list → Unique (session_destroy pder sid).list
unfolding session_destroy
destroy-Unique pder sid u = elim (Option-cases (lookup sid pder.sessions)) [
  | inl e ↦ rw (session_destroy, e) u
  | inr (i, e) ↦ rw (session_destroy, e) (remove-Unique i pder.list u)
]

push-Young :
    (now : ℕ) (pder : MemProvider) (sid : Text) → Young pder → Young (push_new pder sid now)
unfolding push_new find
push-Young now pder sid young i h = ground (arith, young i)

remove-Young :
    (i high : ℕ) (es : List Element)
    → ((j : ℕ) → high ≤ j → find j es ≡ none)
    → (j : ℕ) → high ≤ j
    → find j (remove i es) ≡ none
remove-Young i high es young j h = ground (arith, find-remove i j es, young j h)

update-Young :
    (i high : ℕ) (f : MemSessionStore → MemSessionStore) (es : List Element)
    → ((j : ℕ) → high ≤ j → find j es ≡ none)
    → (j : ℕ) → high ≤ j
    → find j (update i f es) ≡ none
update-Young i high f es young j h = ground (arith, find-update i j f es, young j h)

refresh-Young :
    (now : ℕ) (pder : MemProvider) (sid : Text) → Young pder → Young (session_update now pder sid)
unfolding session_update
refresh-Young now pder sid young j = elim (Option-cases (lookup sid pder.sessions)) [
  | inl e ↦ rw (session_update, e) (young j)
  | inr (i, e) ↦
      rw (session_update, e)
        (λ h. find-move_to_front i j _ ∙ update-Young i pder.fresh _ pder.list young j h)
]

destroy-Young : (pder : MemProvider) (sid : Text) → Young pder → Young (session_destroy pder sid)
unfolding session_destroy
destroy-Young pder sid young j = elim (Option-cases (lookup sid pder.sessions)) [
  | inl e ↦ rw (session_destroy, e) (young j)
  | inr (i, e) ↦ rw (session_destroy, e) (remove-Young i pder.fresh pder.list young j)
]

push-InOrder :
    (t now : ℕ) (pder : MemProvider) (sid : Text)
    → t ≤ now
    → InOrder t pder
    → InOrder now (push_new pder sid now)
unfolding push_new
push-InOrder t now pder sid h (u, d, y) = (
  (y pder.fresh (omega arith), u),
  (omega arith, Descending-later pder.list h d),
  unfold push_new in push-Young now pder sid y,
)

rename-InOrder :
    (t now : ℕ) (pder : MemProvider) (i : ℕ) (oldsid sid : Text)
    → t ≤ now
    → InOrder t pder
    → InOrder now (rename pder i oldsid sid)
unfolding rename
rename-InOrder t now pder i oldsid sid h (u, d, y) = (
  update-Unique i _ pder.list u,
  update-Descending i now _ pder.list (λ st. refl) (Descending-later pder.list h d),
  update-Young i pder.fresh _ pder.list y,
)

read-InOrder :
    (t now : ℕ) (tested pder : MemProvider) (sid : Text)
    → t ≤ now
    → InOrder t pder
    → InOrder now (session_read now tested pder sid).0
unfolding session_read
read-InOrder t now tested pder sid h (u, d, y) = elim (Option-cases (lookup sid tested.sessions)) [
  | inl e ↦ rw (session_read, e) (push-InOrder t now pder sid h (u, d, y))
  | inr (i, e) ↦ rw (session_read, e) (u, Descending-later pder.list h d, y)
]

regenerate-InOrder :
    (t now : ℕ) (tested pder : MemProvider) (oldsid sid : Text)
    → t ≤ now
    → InOrder t pder
    → InOrder now (session_regenerate now tested pder oldsid sid).0
unfolding session_regenerate
regenerate-InOrder t now tested pder oldsid sid h o =
    elim (Option-cases (lookup oldsid tested.sessions)) [
      | inl e ↦ rw (session_regenerate, e) (push-InOrder t now pder sid h o)
      | inr (i, e) ↦ rw (session_regenerate, e) (rename-InOrder t now pder i oldsid sid h o)
    ]

Section-InOrder :
    {t now : ℕ} {pder after : MemProvider}
    → Section t pder now after
    → InOrder t pder
    → InOrder now after
unfolding gc_remove
Section-InOrder (read_section t now tested pder sid h) o = read-InOrder t now tested pder sid h o
Section-InOrder (regenerate_section t now tested pder oldsid sid h) o =
    regenerate-InOrder t now tested pder oldsid sid h o
Section-InOrder (update_section t now pder sid h) (u, d, y) =
    let (u', d') = refresh-Ordered now pder sid (u, Descending-later pder.list h d) in
    (u', d', refresh-Young now pder sid y)
Section-InOrder (destroy_section t now pder sid h) (u, d, y) = (
  destroy-Unique pder sid u,
  destroy-Descending now pder sid (Descending-later pder.list h d),
  destroy-Young pder sid y,
)
Section-InOrder (write_section t now pder i key value h) (u, d, y) = (
  update-Unique i _ pder.list u,
  update-Descending i now (λ st. set st key value) pder.list (λ st. unfold set in refl)
      (Descending-later pder.list h d),
  update-Young i pder.fresh _ pder.list y,
)
Section-InOrder (remove_section t now pder i sid h) (u, d, y) = (
  remove-Unique i pder.list u,
  remove-Descending i now pder.list (Descending-later pder.list h d),
  remove-Young i pder.fresh pder.list y,
)

started-Young : (max_lifetime : ℕ) → Young (started max_lifetime)
unfolding find
started-Young max_lifetime i h = refl

Run-InOrder : {max_lifetime t : ℕ} {pder : MemProvider} → Run max_lifetime t pder → InOrder t pder
Run-InOrder {max_lifetime} (begun t) = (tt, tt, started-Young max_lifetime)
Run-InOrder (section r s) = Section-InOrder s (Run-InOrder r)

-- However the sections of any calls interleave, by a clock that does not run backwards, each element stands once in
-- the list, the sessions stand in the order of their last access, and no element has the identity of one
-- still to be made; so the test of a SessionGC finds nothing only where every session of the list is live,
-- and it finds an expired session of the list otherwise.
pub Run-gc_test :
    {max_lifetime t : ℕ} {pder : MemProvider} (now : ℕ)
    → Run max_lifetime t pder
    → InOrder t pder
      × (((gc_test now pder ≡ none) × (keep now pder.max_lifetime pder.list ≡ pder.list))
          ⊎ ((e : Element) × (gc_test now pder ≡ some e)
              × (find e.id pder.list ≡ some e.store)
              × (expired now pder.max_lifetime e ≡ true)))
Run-gc_test {max_lifetime} {t} {pder} now r =
    let (u, d, y) = Run-InOrder r in
    (
      (u, d, y),
      by_back (reverse pder.list) (sym (reverse-reverse pder.list))
          (reverse_aux-Ascending t pder.list [] d tt) u,
    )
  where
    by_back :
        (back : List Element)
        → pder.list ≡ reverse back
        → Ascending 0 back
        → Unique pder.list
        → ((gc_test now pder ≡ none) × (keep now pder.max_lifetime pder.list ≡ pder.list))
          ⊎ ((e : Element) × (gc_test now pder ≡ some e)
              × (find e.id pder.list ≡ some e.store)
              × (expired now pder.max_lifetime e ≡ true))
    by_back [] e a u = inl ((unfold gc_test in rw e refl), rw e refl)
    by_back (b ∷ back) e (l, a) u =
        let test = gc_test-back now pder b back e in
        elim (Bool-cases (expired now pder.max_lifetime b)) [
          | inl old ↦ inr (b, (rw (test, old) refl), (last-there pder b back e u).0, old)
          | inr young ↦
              let live = keep_live now pder.max_lifetime (b ∷ back) (
                young,
                Ascending-AllLive now pder.max_lifetime b.store.time_accessed back young a,
              ) in
              inl (
                (rw (test, young) refl),
                ap (keep now pder.max_lifetime) e
                    ∙ keep-reverse_aux now pder.max_lifetime (b ∷ back) []
                    ∙ ap reverse live
                    ∙ sym e,
              )
        ]
