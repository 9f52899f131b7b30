-- ===== src/Session/Collect.antt =====
-- server/web/session/sess_mem.go: `SessionGC`, and the order of the list that it relies on.
use beego.Common.{ℕ, ◌+◌, ◌≤◌, ltb, ◌≡◌, Bool, false, List, [], ◌∷◌, arith}
use beego.Session.Memory.{Element}

-- The sessions of a list that has the oldest access first, none after the time `now`.
abbrev pub Ascending : ℕ → List Element → Type 0
Ascending low [] = Unit
Ascending low (e ∷ es) = (low ≤ e.store.time_accessed) × Ascending e.store.time_accessed es

abbrev pub expired : ℕ → ℕ → Element → Bool
expired now max_lifetime e = ltb (e.store.time_accessed + max_lifetime) now

abbrev pub AllLive : ℕ → ℕ → List Element → Type 0
AllLive now max_lifetime [] = Unit
AllLive now max_lifetime (e ∷ es) =
    (expired now max_lifetime e ≡ false) × AllLive now max_lifetime es

pub Ascending-AllLive :
    (now life low : ℕ) (es : List Element)
    → ltb (low + life) now ≡ false
    → Ascending low es
    → AllLive now life es
Ascending-AllLive now life low [] h a = tt
Ascending-AllLive now life low (e ∷ es) h (l, a) =
    let live : expired now life e ≡ false = ground arith in
    (live, Ascending-AllLive now life e.store.time_accessed es live a)
