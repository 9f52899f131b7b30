-- ===== src/Page.antt =====
-- core/utils/pagination/paginator.go: `Paginator`. The numbers of items and pages are `int`s; the quotient
-- of `PageNums`, which the code takes in floating point, is exact below 2 ^ 53 items.
mod Examples
pub mod Window
use beego.Common.{
  ℕ, zero, suc, ◌+◌, ◌-◌, ◌*◌, ◌/◌, ◌%◌, min, Bool, true, false, ◌&&◌, ltb, leb, ◌==◌,
  if◌then◌else◌, List, [], ◌∷◌, Option, none, some, Text, codes,
}
use beego.Common.Int.{ℤ, pos, negsuc, ltb_ℤ, pos_part, neg_part, sub_ℕ}

-- The fields that the methods change are `page_nums`, `page` and `page_range`; 0 and the empty list
-- stand for "not computed yet". `form_p` is what `strconv.Atoi` makes of the request's field "p", 0 for
-- its errors. `NewPaginator` makes `per_page_nums` positive.
pub record Paginator : Type 0 where
  pub form_p : ℤ
  pub per_page_nums : ℕ
  pub max_pages : ℤ
  pub nums : ℤ
  pub page_range : List ℤ
  pub page_nums : ℤ
  pub page : ℤ

abbrev pub is_zero : ℤ → Bool
is_zero (pos n) = n == 0
is_zero (negsuc n) = false

-- `math.Ceil(float64(nums) / float64(per))`
abbrev pub ceil_div : ℤ → ℕ → ℤ
ceil_div (pos n) per = pos ((n + per - 1) / per)
ceil_div (negsuc n) per = sub_ℕ 0 ((n + 1) / per)

abbrev pub min_ℤ : ℤ → ℤ → ℤ
min_ℤ a b = if ltb_ℤ a b then a else b

abbrev count_pages : Paginator → ℤ
count_pages p =
    let page_nums = ceil_div p.nums p.per_page_nums in
    if ltb_ℤ (pos 0) p.max_pages then min_ℤ page_nums p.max_pages else page_nums

-- `PageNums`: the paginator afterwards, and the number of pages.
unfoldable pub page_nums : Paginator → Paginator × ℤ
page_nums p =
    if is_zero p.page_nums
    then (record p { page_nums = count_pages p }, count_pages p)
    else (p, p.page_nums)

-- The two tests of `Page` on what the request asks for.
abbrev pub clamp_page : ℤ → ℤ → ℤ
clamp_page asked last =
    let page = if ltb_ℤ last asked then last else asked in
    if ltb_ℤ (pos 0) page then page else pos 1

-- `Page`: the paginator afterwards, and the current page.
unfoldable pub page : Paginator → Paginator × ℤ
page p =
    if is_zero p.page
    then (let (p', last) = page_nums p in
        (record p' { page = clamp_page p.form_p last }, clamp_page p.form_p last))
    else (p, p.page)

-- `n` pages from `start` on.
unfoldable pub pages_from : ℕ → ℕ → List ℤ
pages_from start zero = []
pages_from start (suc n) = pos start ∷ pages_from (start + 1) n

-- The switch of `Pages`, for a current page and a number of pages that are positive.
unfoldable pub window : ℕ → ℕ → List ℤ
window page page_nums =
    if leb page_nums (page + 4) && ltb 9 page_nums
    then pages_from (page_nums - 9 + 1) 9
    else if leb 5 page && ltb 9 page_nums
    then pages_from (page - 5 + 1) (min 9 (page + 4 + 1))
    else pages_from 1 (min 9 page_nums)

is_nil : List ℤ → Bool
is_nil [] = true
is_nil (_ ∷ _) = false

-- `Pages`.
unfoldable pub pages : Paginator → Paginator × List ℤ
unfolding is_nil
pages p =
    if is_nil p.page_range && ltb_ℤ (pos 0) p.nums
    then (let (p1, last) = page_nums p in
        let (p2, current) = page p1 in
        let range = window (pos_part current) (pos_part last) in
        (record p2 { page_range = range }, range))
    else (p, p.page_range)

unfoldable pub has_prev : Paginator → Bool
has_prev p = ltb_ℤ (pos 1) (page p).1

unfoldable pub has_next : Paginator → Bool
has_next p = ltb_ℤ (page p).1 (page_nums (page p).0).1

unfoldable pub is_active : Paginator → ℕ → Bool
is_active p n = elim (page p).1 [ pos m ↦ m == n | negsuc _ ↦ false ]

-- `(p.Page() - 1) * p.PerPageNums`, for a current page that is positive.
unfoldable pub offset : Paginator → ℕ
offset p = (pos_part (page p).1 - 1) * p.per_page_nums

unfoldable pub has_pages : Paginator → Bool
has_pages p = ltb_ℤ (pos 1) (page_nums p).1

-- `NewPaginator`, of the page that the request asks for and the number that `toInt64` makes of `nums`.
unfoldable pub new_paginator : ℤ → ℤ → ℤ → Paginator
new_paginator form_p per nums = record {
  form_p = form_p;
  per_page_nums = if ltb_ℤ (pos 0) per then pos_part per else 10;
  max_pages = pos 0;
  nums = nums;
  page_range = [];
  page_nums = pos 0;
  page = pos 0;
}
