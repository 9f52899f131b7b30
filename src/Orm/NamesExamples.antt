-- ===== src/Orm/NamesExamples.antt =====
-- The theorems on names and orders at concrete inputs.
use beego.Common.Outcome.{ok, panic}
use beego.Orm.Order.{Order, has_empty, index_out_of_range, parse_order, parse_order_lem}
use beego.Common.{true, false, List, [], ◌∷◌, ◌⊎◌, Text, length, ◌≡◌, refl, codes, holds}
use beego.Orm.Names.{snake_string, camel_string, camel_string-snake_string}

camel_string-snake_string_example :
    camel_string (snake_string (codes "UserID2Name")) ≡ codes "UserID2Name"
unfolding holds
camel_string-snake_string_example = camel_string-snake_string b'U' (codes "serID2Name") refl refl

abbrev by_age : List Text
by_age = codes "-profile__age" ∷ codes "id" ∷ []

parse_order_lem_example :
    ((has_empty by_age ≡ true) × (parse_order by_age ≡ panic index_out_of_range))
    ⊎ ((has_empty by_age ≡ false)
        × (orders : List Order) × (parse_order by_age ≡ ok orders)
        × (length orders ≡ 2))
parse_order_lem_example = parse_order_lem by_age
