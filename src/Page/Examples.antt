-- ===== src/Page/Examples.antt =====
-- The theorems on the paginator at concrete inputs.
use beego.Common.{ℕ, ◌+◌, ◌-◌, ◌*◌, ◌≤◌, ◌<◌, ◌≡◌, min, arith}
use beego.Common.Int.{pos}
use beego.Page.{Paginator, new_paginator, page_nums, window, pages_from}
use beego.Page.Window.{window_lem, page_nums_lem}

window_lem_example :
    (start : ℕ) × (window 7 20 ≡ pages_from start (min 9 20))
    × (1 ≤ start)
    × (start + min 9 20 ≤ 20 + 1)
    × (start ≤ 7)
    × (7 < start + min 9 20)
window_lem_example = window_lem 7 20 (omega arith) (omega arith)

abbrev pager : Paginator
pager = new_paginator (pos 99) (pos 10) (pos 101)

page_nums_lem_example :
    (k : ℕ) × ((page_nums pager).1 ≡ pos k)
    × (0 < k)
    × ((k - 1) * pager.per_page_nums < 101)
    × (101 ≤ k * pager.per_page_nums)
page_nums_lem_example = page_nums_lem (pos 99) (pos 10) 101 (omega arith)
