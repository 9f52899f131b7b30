-- ===== src/Session/Order.antt =====
-- server/web/session/sess_mem.go: the list of sessions has the latest access first, so that `SessionGC`
-- may stop at the first session that has not expired.
use beego.Common.{
  ℕ, ◌≤◌, ◌==◌, ◌≡◌, refl, ap, if◌then◌else◌, List, [], ◌∷◌, none, some, arith, Bool-cases,
  Option-cases, inl, inr,
}
use mathlib.Core.List.{reverse_aux}
use beego.Session.Memory.{MemSessionStore, Element, find, remove, update, move_to_front}
use beego.Session.Index.{find-update}
use beego.Session.Collect.{Ascending, AllLive, expired}

-- No access is later than `high`, and none is later than one before it.
abbrev pub Descending : ℕ → List Element → Type 0
Descending high [] = Unit
Descending high (e ∷ es) = (e.store.time_accessed ≤ high) × Descending e.store.time_accessed es

pub Descending-later :
    {low high : ℕ} (es : List Element) → low ≤ high → Descending low es → Descending high es
Descending-later [] h d = tt
Descending-later (e ∷ es) h (a, d) = (omega arith, d)

pub remove-Descending :
    (i high : ℕ) (es : List Element) → Descending high es → Descending high (remove i es)
unfolding remove
remove-Descending i high [] d = tt
remove-Descending i high (e ∷ es) (a, d) =
    let rest = remove-Descending i e.store.time_accessed es d in
    elim (Bool-cases (e.id == i)) [
      | inl same ↦ rw same (Descending-later (remove i es) a rest)
      | inr other ↦ rw other (a, rest)
    ]

-- A write that leaves the times alone.
pub update-Descending :
    (i high : ℕ) (f : MemSessionStore → MemSessionStore) (es : List Element)
    → ((st : MemSessionStore) → (f st).time_accessed ≡ st.time_accessed)
    → Descending high es
    → Descending high (update i f es)
unfolding update
update-Descending i high f [] same d = tt
update-Descending i high f (e ∷ es) same (a, d) =
    let rest = update-Descending i e.store.time_accessed f es same d in
    elim (Bool-cases (e.id == i)) [
      | inl q ↦ rw q (rw (same e.store) (a, rest))
      | inr q ↦ rw q (a, rest)
    ]

remove-update :
    (i : ℕ) (f : MemSessionStore → MemSessionStore) (es : List Element)
    → remove i (update i f es) ≡ remove i es
unfolding remove update
remove-update i f [] = refl
remove-update i f (e ∷ es) = ground (arith, remove-update i f es)

abbrev touch : ℕ → MemSessionStore → MemSessionStore
touch now st = record st { time_accessed = now }

update-absent :
    (i : ℕ) (f : MemSessionStore → MemSessionStore) (es : List Element)
    → find i es ≡ none
    → update i f es ≡ es
unfolding find update
update-absent i f [] h = refl
update-absent i f (e ∷ es) h = ground (arith, update-absent i f es)

pub touch-Descending :
    (i now : ℕ) (es : List Element)
    → Descending now es
    → Descending now (move_to_front i (update i (touch now) es))
unfolding move_to_front
touch-Descending i now es d = elim (Option-cases (find i es)) [
  | inl absent ↦ rw (update-absent i (touch now) es absent) (rw (move_to_front, absent) d)
  | inr (st, e) ↦
      let there : find i (update i (touch now) es) ≡ some (touch now st) =
        ground (arith, find-update i i (touch now) es) in
      rw (move_to_front, there)
        (rw (remove-update i (touch now) es) (omega arith, remove-Descending i now es d))
]

-- The elements that have not expired.
abbrev pub keep : ℕ → ℕ → List Element → List Element
keep now life [] = []
keep now life (e ∷ es) =
    let rest = keep now life es in if expired now life e then rest else e ∷ rest

pub keep_live : (now life : ℕ) (es : List Element) → AllLive now life es → keep now life es ≡ es
keep_live now life [] a = refl
keep_live now life (e ∷ es) (live, a) = rw live (ap (λ r. e ∷ r) (keep_live now life es a))

pub keep-reverse_aux :
    (now life : ℕ) (es acc : List Element)
    → keep now life (reverse_aux es acc) ≡ reverse_aux (keep now life es) (keep now life acc)
keep-reverse_aux now life [] acc = refl
keep-reverse_aux now life (e ∷ es) acc = elim (Bool-cases (expired now life e)) [
  | inl old ↦ rw old (rw old at (keep-reverse_aux now life es (e ∷ acc)))
  | inr young ↦ rw young (rw young at (keep-reverse_aux now life es (e ∷ acc)))
]

Ascending-sooner :
    {low high : ℕ} (es : List Element) → low ≤ high → Ascending high es → Ascending low es
Ascending-sooner [] h a = tt
Ascending-sooner (e ∷ es) h (b, a) = (omega arith, a)

pub reverse_aux-Ascending :
    (high : ℕ) (es acc : List Element)
    → Descending high es
    → Ascending high acc
    → Ascending 0 (reverse_aux es acc)
reverse_aux-Ascending high [] acc d a = Ascending-sooner acc (omega arith) a
reverse_aux-Ascending high (e ∷ es) acc (b, d) a =
    reverse_aux-Ascending e.store.time_accessed es (e ∷ acc) d
      (omega arith, Ascending-sooner acc b a)
