-- ===== src/Page/Window.antt =====
-- The pages that the paginator of core/utils/pagination/paginator.go shows.
use beego.Common.{
  ℕ, zero, suc, ◌+◌, ◌-◌, ◌*◌, ◌/◌, ◌≤◌, ◌<◌, ◌≡◌, refl, ap, ◌∙◌, min, max, ◌&&◌, ltb, leb,
  if◌then◌else◌, arith,
}
use beego.Common.Int.{ℤ, pos, negsuc}
use native.Mathlib.Nat.{mul-le-mul_right}
use beego.Page.{page_nums, page, pages_from, window, offset, new_paginator, clamp_page}

-- Where the window begins.
window_start : ℕ → ℕ → ℕ
window_start page n =
    if leb n (page + 4) && ltb 9 n
    then n - 9 + 1
    else if leb 5 page && ltb 9 n
    then page - 5 + 1
    else 1

-- For a current page among `n` pages the window shows consecutive pages, nine or all of them if there are
-- fewer, none outside 1 to `n`, and the current page is one of them.
pub window_lem :
    (page n : ℕ)
    → 1 ≤ page
    → page ≤ n
    → (start : ℕ) × (window page n ≡ pages_from start (min 9 n))
      × (1 ≤ start)
      × (start + min 9 n ≤ n + 1)
      × (start ≤ page)
      × (page < start + min 9 n)
unfolding window window_start
window_lem page n h k =
    (window_start page n, ground arith, ground arith, ground arith, ground arith, ground arith)

div_bounds : (a b : ℕ) → 0 < b → (a / b * b ≤ a) × (a < (a / b + 1) * b)
div_bounds a b h = (grind arith, grind arith)

quotient_up :
    (q n per : ℕ)
    → 0 < n
    → 0 < per
    → q * per ≤ n + per - 1
    → n + per - 1 < (q + 1) * per
    → (0 < q) × ((q - 1) * per < n) × (n ≤ q * per)
quotient_up zero n per h k a b = absurd (omega arith)
quotient_up (suc q) n per h k a b =
    let e : suc q - 1 ≡ q = omega arith in (omega arith, rw e (omega arith), omega arith)

-- The quotient rounded up.
ceil_lem :
    (n per : ℕ)
    → 0 < n
    → 0 < per
    → (0 < (n + per - 1) / per)
      × (((n + per - 1) / per - 1) * per < n)
      × (n ≤ (n + per - 1) / per * per)
ceil_lem n per h k =
    let (low, high) = div_bounds (n + per - 1) per k in
    quotient_up ((n + per - 1) / per) n per h k low high

per_pos : (form_p per nums : ℤ) → 0 < (new_paginator form_p per nums).per_page_nums
unfolding new_paginator
per_pos form_p per nums = ground arith

fresh_pages :
    (form_p per : ℤ) (n : ℕ)
    → let p = new_paginator form_p per (pos n) in
      (page_nums p).1 ≡ pos ((n + p.per_page_nums - 1) / p.per_page_nums)
unfolding page_nums new_paginator
fresh_pages form_p per n = refl

-- For a new paginator over `n` items the number of pages is the least that holds all of them.
pub page_nums_lem :
    (form_p per : ℤ) (n : ℕ)
    → 0 < n
    → let p = new_paginator form_p per (pos n) in
      (k : ℕ) × ((page_nums p).1 ≡ pos k)
      × (0 < k)
      × ((k - 1) * p.per_page_nums < n)
      × (n ≤ k * p.per_page_nums)
page_nums_lem form_p per n h =
    let per' : ℕ = (new_paginator form_p per (pos n)).per_page_nums in
    let (some_page, fits, holds) = ceil_lem n per' h (per_pos form_p per (pos n)) in
    ((n + per' - 1) / per', fresh_pages form_p per n, some_page, fits, holds)

fresh_page :
    (form_p per : ℤ) (n : ℕ)
    → let p = new_paginator form_p per (pos n) in (page p).1 ≡ clamp_page form_p (page_nums p).1
unfolding page new_paginator
fresh_page form_p per n = refl

-- The page from 1 to `k` that is nearest to the one asked for.
abbrev pub nearest : ℤ → ℕ → ℕ
nearest (pos asked) k = max 1 (min asked k)
nearest (negsuc _) k = 1

clamp_page-nearest : (asked : ℤ) (k : ℕ) → 0 < k → clamp_page asked (pos k) ≡ pos (nearest asked k)
clamp_page-nearest (pos a) k h = ground arith
clamp_page-nearest (negsuc a) k h = ground arith

nearest-bounds : (asked : ℤ) (k : ℕ) → 0 < k → (1 ≤ nearest asked k) × (nearest asked k ≤ k)
nearest-bounds (pos a) k h = omega arith
nearest-bounds (negsuc a) k h = omega arith

-- The current page of a new paginator over `n` items is the one of its pages, 1 to the last, that is nearest
-- to the page asked for; the items that `Offset` skips are those of the pages before it, and fewer than all.
page_lem :
    (form_p per : ℤ) (n : ℕ)
    → 0 < n
    → let p = new_paginator form_p per (pos n) in
      (k : ℕ) × ((page_nums p).1 ≡ pos k)
      × ((page p).1 ≡ pos (nearest form_p k))
      × (nearest form_p k ≤ k)
      × (offset p ≡ (nearest form_p k - 1) * p.per_page_nums)
      × (offset p < n)
unfolding offset
page_lem form_p per n h =
    let (k, counted, some_page, fits, holds) = page_nums_lem form_p per n h in
    let c : ℕ = nearest form_p k in
    let current : (page (new_paginator form_p per (pos n))).1 ≡ pos c =
      fresh_page form_p per n
      ∙ ap (clamp_page form_p) counted
      ∙ clamp_page-nearest form_p k some_page in
    let (low, high) = nearest-bounds form_p k some_page in
    let per' : ℕ = (new_paginator form_p per (pos n)).per_page_nums in
    let below : (c - 1) * per' ≤ (k - 1) * per' = mul-le-mul_right per' (omega arith) in
    (k, counted, current, high, rw current, rw current (omega arith))
