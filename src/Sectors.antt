-- ===== src/Sectors.antt =====
-- The sector set of a file, capio/server/src/capio_file.cpp: the data regions [start, end) that hold
-- data, as `std::set` orders them, by their start. An iterator of the set is the pair of the
-- sectors before it and of those from it on. Offsets are natural numbers; where the code returns -1
-- (CAPIO_SECTOR_NOT_FOUND, or no such offset), the model returns `none`.
pub mod Order
pub mod Merge
pub mod Cover
pub mod Seek
pub mod Answers
pub mod Size
use capio.Base.{
  ℕ, ◌+◌, ◌≤◌, ◌<◌, max, List, [], ◌∷◌, ◌++◌, Option, none, some, ltb, leb, nat_beq, if◌then◌else◌,
}

abbrev pub Sector : Type 0
Sector = ℕ × ℕ

abbrev pub Sectors : Type 0
Sectors = List Sector

-- The first sector that does not start before `k`.
unfoldable pub lower_bound : ℕ → Sectors → Sectors × Sectors
lower_bound k [] = ([], [])
lower_bound k ((a, b) ∷ xs) =
    let (before, after) = lower_bound k xs in
    if ltb a k then ((a, b) ∷ before, after) else ([], (a, b) ∷ xs)

-- The first sector that starts after `k`.
unfoldable pub upper_bound : ℕ → Sectors → Sectors × Sectors
upper_bound k [] = ([], [])
upper_bound k ((a, b) ∷ xs) =
    let (before, after) = upper_bound k xs in
    if leb a k then ((a, b) ∷ before, after) else ([], (a, b) ∷ xs)

-- The sector before an iterator, and those before that one.
unfoldable pub prev : Sectors → Option (Sectors × Sector)
prev [] = none
prev (x ∷ xs) = elim (prev xs) [ none ↦ some ([], x) | some (before, y) ↦ some (x ∷ before, y) ]

-- CapioFile::getFileSize, and the size that _getStoredSize reads.
unfoldable pub get_file_size : Sectors → ℕ
unfolding prev
get_file_size xs = elim (prev xs) [ none ↦ 0 | some (_, (a, b)) ↦ b ]

-- The end of the sector before `it_end`, if it reaches further than the new sector.
pub right_edge : ℕ → Sectors → ℕ
right_edge new_end xs = elim (prev xs) [
  | none ↦ new_end
  | some (_, (a, b)) ↦ if ltb new_end b then b else new_end
]

-- The second half of insertSector, with `before` the sectors before `it_start` and `after` those
-- from it on. `it_end` is not before `it_start`, since each sector before starts before `new_start`.
pub absorb_right : ℕ → ℕ → Sectors → Sectors → Sectors
unfolding right_edge upper_bound prev
absorb_right new_start new_end before after =
    let (erased, rest) = upper_bound (new_end + 1) after in
    before ++ ((new_start, right_edge new_end (before ++ erased)) ∷ rest)

-- The first half: the sector before `it_start` is taken in if it reaches `new_start`.
unfoldable pub absorb_left : ℕ → ℕ → Sectors → Sectors → Sectors
unfolding absorb_right prev
absorb_left new_start new_end before after = elim (prev before) [
  | none ↦ absorb_right new_start new_end before after
  | some (before', (a, b)) ↦
      if leb new_start b
      then absorb_right a (max new_end b) before' ((a, b) ∷ after)
      else absorb_right new_start new_end before after
]

unfoldable pub insert_sector : ℕ → ℕ → Sectors → Sectors
insert_sector new_start new_end xs =
    let (before, after) = lower_bound new_start xs in absorb_left new_start new_end before after

unfoldable pub end_at : ℕ → Option (Sectors × Sector) → Option ℕ
end_at offset none = none
end_at offset (some (_, (a, b))) = if leb offset b then some b else none

-- CapioFile::getSectorEnd
unfoldable pub get_sector_end : ℕ → Sectors → Option ℕ
get_sector_end offset xs = end_at offset (prev (upper_bound offset xs).0)

unfoldable pub seek_empty : ℕ → Option ℕ
seek_empty offset = if nat_beq offset 0 then some 0 else none

-- seekData on a set with sectors: `before` and `after` meet at the iterator.
unfoldable pub data_after : ℕ → Option (Sectors × Sector) → Sectors → Option ℕ
data_after offset none [] = none
data_after offset none ((a, b) ∷ after) = some a
data_after offset (some (_, (a, b))) [] = if leb offset b then some offset else none
data_after offset (some (_, (a, b))) ((c, d) ∷ after) = if leb offset b then some offset else some c

-- CapioFile::seekData
unfoldable pub seek_data : ℕ → Sectors → Option ℕ
seek_data offset [] = seek_empty offset
seek_data offset (x ∷ xs) =
    let (before, after) = upper_bound offset (x ∷ xs) in data_after offset (prev before) after

-- seekHole on a set with sectors.
unfoldable pub hole_after : ℕ → Option (Sectors × Sector) → Sectors → Option ℕ
hole_after offset none after = some offset
hole_after offset (some (_, (a, b))) [] = if leb offset b then some b else none
hole_after offset (some (_, (a, b))) ((c, d) ∷ after) = if leb offset b then some b else some offset

-- CapioFile::seekHole
unfoldable pub seek_hole : ℕ → Sectors → Option ℕ
seek_hole offset [] = seek_empty offset
seek_hole offset (x ∷ xs) =
    let (before, after) = upper_bound offset (x ∷ xs) in hole_after offset (prev before) after
