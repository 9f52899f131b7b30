-- ===== src/Task/Spec/Tests.antt =====
-- Runs of the parser of cron expressions on the lines that the comments of task/task.go give.
use beego.Common.{ℕ, ◌≡◌, refl, Bool, true, false, List, [], ◌∷◌, codes, split, fields_func}
use beego.Common.Outcome.{Outcome, ok, panic, fuel_out}
use beego.Task.Word.{
  Word, Failure, get_bits, bits_loop, too_many_hyphens, field_count, start_beyond_end,
}
use beego.Task.Spec.{
  Schedule, parse, parse_fields, parse_six, get_field, or_ranges, get_range, fill_range, range_ends,
  range_step, check_range, is_space, parse_spec, all_bits, must_parse_int, parse_int_or_name,
}

unfoldable pub program : Unit {0}
unfolding split fields_func get_bits bits_loop parse parse_fields parse_six get_field or_ranges
    get_range fill_range range_ends range_step check_range is_space parse_spec all_bits
    must_parse_int parse_int_or_name
program = tt

abbrev bits_of : List ℕ → Word → List Bool
bits_of [] w = []
bits_of (j ∷ js) w = w j ∷ bits_of js w

abbrev hour_bits : List ℕ → Outcome Failure Schedule → List Bool
hour_bits js (ok s) = bits_of js s.hour
hour_bits js (panic e) = []
hour_bits js fuel_out = []

abbrev week_bits : List ℕ → Outcome Failure Schedule → List Bool
week_bits js (ok s) = bits_of js s.week
week_bits js (panic e) = []
week_bits js fuel_out = []

hours_by_three :
    hour_bits (7 ∷ 8 ∷ 11 ∷ 14 ∷ 20 ∷ 23 ∷ 63 ∷ []) (parse 66 (codes "0 2 8-20/3 * * *"))
    ≡ false ∷ true ∷ true ∷ true ∷ true ∷ false ∷ false ∷ []
unfolding program
hours_by_three = refl

named_week_days :
    week_bits (0 ∷ 1 ∷ 2 ∷ 5 ∷ 6 ∷ []) (parse 66 (codes "0 0 1 * * Mon-FRI"))
    ≡ false ∷ true ∷ true ∷ true ∷ false ∷ []
unfolding program
named_week_days = refl

weekly_hour : hour_bits (0 ∷ 1 ∷ []) (parse 0 (codes "@weekly")) ≡ true ∷ false ∷ []
unfolding program
weekly_hour = refl

four_fields : parse 66 (codes "* * * *") ≡ panic field_count
unfolding program
four_fields = refl

hyphens : parse 66 (codes "1-2-3 * * * *") ≡ panic too_many_hyphens
unfolding program
hyphens = refl

backwards : parse 66 (codes "30-10 * * * *") ≡ panic start_beyond_end
unfolding program
backwards = refl
