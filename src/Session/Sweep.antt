-- ===== src/Session/Sweep.antt =====
-- server/web/session/sess_mem.go: `SessionGC`, whose rounds no other call interrupts.
use beego.Common.{
  ℕ, suc, ◌+◌, ◌≤◌, ◌≡◌, refl, ap, sym, ◌∙◌, subst, true, List, [], ◌∷◌, ◌++◌, none, some,
  if◌then◌else◌, arith, reverse, length, Text, Bool-cases, inl, inr, reverse_aux-append,
}
use mathlib.Core.List.{reverse-reverse, reverse_aux}
use beego.Session.Memory.{
  Element, MemProvider, find, remove, gc_test, gc_remove, gc_loop, session_gc, session_destroy,
}
use beego.Session.Collect.{Ascending, AllLive, expired, Ascending-AllLive}
use beego.Session.Order.{Descending, keep, keep_live, keep-reverse_aux, reverse_aux-Ascending}
use beego.Session.Steps.{
  Unique, Agrees, find-append, Unique-last, remove-last, destroyed, destroy-Agrees, destroy_all,
}

-- The ids of the sessions from the back of the list up to the first that has not expired, by a clock
-- whose readings are numbered from `k`, and the elements behind these.
abbrev pub swept : (ℕ → ℕ) → ℕ → ℕ → List Element → List Text
swept clock life k [] = []
swept clock life k (e ∷ es) =
    let rest = swept clock life (suc k) es in
    if expired (clock k) life e then e.store.sid ∷ rest else []

abbrev left : (ℕ → ℕ) → ℕ → ℕ → List Element → List Element
left clock life k [] = []
left clock life k (e ∷ es) =
    let rest = left clock life (suc k) es in if expired (clock k) life e then rest else e ∷ es

reverse_cons : (b : Element) (back : List Element) → reverse (b ∷ back) ≡ reverse back ++ (b ∷ [])
reverse_cons b back = reverse_aux-append back [] (b ∷ [])

back_of :
    (pder : MemProvider) (back : List Element) → pder.list ≡ reverse back → reverse pder.list ≡ back
back_of pder back e = ap reverse e ∙ reverse-reverse back

pub gc_test-back :
    (now : ℕ) (pder : MemProvider) (b : Element) (back : List Element)
    → pder.list ≡ reverse (b ∷ back)
    → gc_test now pder ≡ (if expired now pder.max_lifetime b then some b else none)
unfolding gc_test
gc_test-back now pder b back e = rw (gc_test, back_of pder (b ∷ back) e) refl

-- The last element by itself.
pub last-there :
    (pder : MemProvider) (b : Element) (back : List Element)
    → pder.list ≡ reverse (b ∷ back)
    → Unique pder.list
    → (find b.id pder.list ≡ some b.store) × (remove b.id pder.list ≡ reverse back)
last-there pder b back e u =
    let split : pder.list ≡ reverse back ++ (b ∷ []) = e ∙ reverse_cons b back in
    let (absent, v) = Unique-last (reverse back) b (subst Unique split u) in
    (
      rw split (rw (find-append b.id (reverse back) b absent) ground arith),
      ap (remove b.id) split ∙ remove-last (reverse back) b absent,
    )

last-destroyed :
    (pder : MemProvider) (b : Element) (back : List Element)
    → pder.list ≡ reverse (b ∷ back)
    → Agrees pder
    → gc_remove pder b.id b.store.sid ≡ session_destroy pder b.store.sid
unfolding gc_remove
last-destroyed pder b back e ((linked, owned), u) =
    sym (destroyed pder b.store.sid b.id (owned b.id b.store (last-there pder b back e u).0).0)

gc_loop-left :
    (clock : ℕ → ℕ) (back : List Element) (k : ℕ) (pder : MemProvider)
    → pder.list ≡ reverse back
    → Agrees pder
    → (gc_loop clock (length back) k pder).list ≡ reverse (left clock pder.max_lifetime k back)
      × (gc_loop clock (length back) k pder
          ≡ destroy_all (swept clock pder.max_lifetime k back) pder)
unfolding gc_loop gc_remove
gc_loop-left clock [] k pder e a = (e, refl)
gc_loop-left clock (b ∷ back) k pder e a =
    let test = gc_test-back (clock k) pder b back e in
    let once = last-destroyed pder b back e a in
    elim (Bool-cases (expired (clock k) pder.max_lifetime b)) [
      | inr young ↦ rw (gc_loop, test, young) (e, refl)
      | inl old ↦
          let (l, d) =
            gc_loop-left clock back (suc k) (gc_remove pder b.id b.store.sid)
              (last-there pder b back e a.1).1
              (subst Agrees (sym once) (destroy-Agrees pder b.store.sid a)) in
          rw (gc_loop, test, old)
            (l, d ∙ ap (destroy_all (swept clock pder.max_lifetime (suc k) back)) once)
    ]

-- By a clock that does not run backwards, what is left are the elements that have not expired at the
-- last reading.
length-reverse_aux : (es acc : List Element) → length (reverse_aux es acc) ≡ length es + length acc
length-reverse_aux [] acc = omega arith
length-reverse_aux (e ∷ es) acc = omega (arith, length-reverse_aux es (e ∷ acc))

left-keep :
    (clock : ℕ → ℕ) (life low k : ℕ) (es : List Element)
    → ((i j : ℕ) → i ≤ j → clock i ≤ clock j)
    → Ascending low es
    → left clock life k es ≡ keep (clock (k + length (swept clock life k es))) life es
left-keep clock life low k [] mono a = refl
left-keep clock life low k (e ∷ es) mono (l, a) = elim (Bool-cases (expired (clock k) life e)) [
  | inr young ↦
      let none_swept : length (swept clock life k (e ∷ es)) ≡ 0 = rw young refl in
      let all_left : left clock life k (e ∷ es) ≡ e ∷ es = rw young refl in
      let live : AllLive (clock k) life (e ∷ es) =
        (young, Ascending-AllLive (clock k) life e.store.time_accessed es young a) in
      let add_zero : k ≡ k + 0 = omega arith in
      all_left
      ∙ subst (λ j. e ∷ es ≡ keep (clock j) life (e ∷ es))
          (add_zero ∙ ap (λ j. k + j) (sym none_swept))
          (sym (keep_live (clock k) life (e ∷ es) live))
  | inl old ↦
      let n = length (swept clock life (suc k) es) in
      let ih = left-keep clock life e.store.time_accessed (suc k) es mono a in
      let later = mono k (suc k + n) (omega arith) in
      let gone : expired (clock (suc k + n)) life e ≡ true = ground arith in
      let counted : length (swept clock life k (e ∷ es)) ≡ suc n = rw old refl in
      let behind : left clock life k (e ∷ es) ≡ left clock life (suc k) es = rw old refl in
      let same : suc k + n ≡ k + suc n = omega arith in
      behind
      ∙ subst (λ j. left clock life (suc k) es ≡ keep (clock j) life (e ∷ es))
          (same ∙ ap (λ j. k + j) (sym counted)) (rw gone ih)
]

length-reverse : (es : List Element) → length es ≡ length (reverse es)
length-reverse es = omega (arith, length-reverse_aux es [])

-- A collection is the same as SessionDestroy of each session from the back of the list up to the first
-- that has not expired.
pub session_gc-destroy_all :
    (clock : ℕ → ℕ) (pder : MemProvider)
    → Agrees pder
    → session_gc clock pder ≡ destroy_all (swept clock pder.max_lifetime 0 (reverse pder.list)) pder
unfolding session_gc
session_gc-destroy_all clock pder a =
    rw (length-reverse pder.list)
      (gc_loop-left clock (reverse pder.list) 0 pder (sym (reverse-reverse pder.list)) a).1

-- A collection that no other call interrupts.
pub session_gc_lem :
    (clock : ℕ → ℕ) (high : ℕ) (pder : MemProvider)
    → ((i j : ℕ) → i ≤ j → clock i ≤ clock j)
    → Agrees pder
    → Descending high pder.list
    → ((session_gc clock pder).list
        ≡ keep
            (clock (length (swept clock pder.max_lifetime 0 (reverse pder.list))))
            pder.max_lifetime
            pder.list)
      × (session_gc clock pder
          ≡ destroy_all (swept clock pder.max_lifetime 0 (reverse pder.list)) pder)
unfolding session_gc
session_gc_lem clock high pder mono a d =
    let back = reverse pder.list in
    let (l, e) = gc_loop-left clock back 0 pder (sym (reverse-reverse pder.list)) a in
    let n = length (swept clock pder.max_lifetime 0 back) in
    let zero_add : 0 + n ≡ n = omega arith in
    let kept : left clock pder.max_lifetime 0 back ≡ keep (clock n) pder.max_lifetime back =
      subst (λ j. left clock pder.max_lifetime 0 back ≡ keep (clock j) pder.max_lifetime back)
        zero_add
        (left-keep clock pder.max_lifetime 0 0 back mono
          (reverse_aux-Ascending high pder.list [] d tt)) in
    rw (length-reverse pder.list) (
      l
          ∙ ap reverse (kept ∙ keep-reverse_aux (clock n) pder.max_lifetime pder.list [])
          ∙ reverse-reverse (keep (clock n) pder.max_lifetime pder.list),
      e,
    )
