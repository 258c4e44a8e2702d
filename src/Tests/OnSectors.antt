-- ===== src/Tests/OnSectors.antt =====
-- Concrete sector sets, as capio/tests/unit/server/src/capio_file.cpp makes them.
use capio.Base.{◌+◌, ◌≡◌, refl, [], ◌∷◌, some, arith, ltb, leb, nat_beq, ◌&&◌, ◌||◌, nat_key}
use capio.Sectors.{
  Sectors, insert_sector, get_sector_end, seek_data, seek_hole, lower_bound, upper_bound,
  absorb_left, prev, end_at,
}
use capio.Sectors.Order.{IsValid}
use capio.Sectors.Merge.{merge, insert_sector-merge}
use capio.Sectors.Cover.{covered, reach, starts_at, insert_sector-IsValid, covered-insert_sector}
use capio.Sectors.Answers.{HoleAt, DataAt, seek_hole_lem, seek_data_lem}

abbrev two : Sectors
two = (1, 3) ∷ (5, 9) ∷ []

abbrev two-IsValid : IsValid two
two-IsValid = (omega arith, omega arith, (omega arith, omega arith, tt))

insert_between : insert_sector 2 4 two ≡ (1, 9) ∷ []
unfolding insert_sector lower_bound absorb_left prev upper_bound
insert_between = refl

insert_apart : insert_sector 12 14 two ≡ (1, 3) ∷ (5, 9) ∷ (12, 14) ∷ []
unfolding insert_sector lower_bound absorb_left prev upper_bound
insert_apart = refl

insert_sector-merge_example : insert_sector 2 4 two ≡ merge 2 4 two
insert_sector-merge_example = insert_sector-merge 2 4 0 two (omega arith) two-IsValid

insert_sector-IsValid_example : IsValid (insert_sector 2 4 two)
insert_sector-IsValid_example = insert_sector-IsValid 2 4 two (omega arith) two-IsValid

covered-insert_sector_example : covered 4 (insert_sector 2 4 two) ≡ (
    covered 4 two
    || (leb 2 4 && ltb 4 4)
    || (nat_beq 4 (reach 2 4 two) && starts_at (reach 2 4 two + 1) two))
covered-insert_sector_example = covered-insert_sector 4 2 4 two (omega arith) two-IsValid

seek_hole_lem_example : HoleAt two 6 (seek_hole 6 two)
seek_hole_lem_example = seek_hole_lem 6 (1, 3) ((5, 9) ∷ []) two-IsValid

seek_data_lem_example : DataAt two 4 (seek_data 4 two)
seek_data_lem_example = seek_data_lem 4 (1, 3) ((5, 9) ∷ []) two-IsValid

end_at_three : get_sector_end 3 two ≡ some 3
unfolding get_sector_end upper_bound prev end_at
end_at_three = refl
