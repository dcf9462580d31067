-- ===== src/Tests/IndexRuns.antt =====
-- The occupancy index with two levels marked, in different words.
use c_order_book.Prelude.{ℕ, ◌+◌, ◌≡◌, not, ◌&&◌, ◌||◌, ◌==◌, arith}
use c_order_book.Bitmap.{Bitmap, clear, set, reset, next_set, prev_set}
use c_order_book.Bitmap.Occupied.{IsIndex, marked, clear-IsIndex, set-IsIndex, IsIndex-operations}
use c_order_book.Bitmap.Nearest.{Found, FoundBelow}
use c_order_book.Bitmap.Above.{next_set-Found}
use c_order_book.Bitmap.Below.{prev_set-Found}

abbrev two_levels : Bitmap
two_levels = set 700 (set 5 clear)

two_levels-IsIndex : IsIndex two_levels
two_levels-IsIndex =
    set-IsIndex 700 (set 5 clear) (omega arith) (set-IsIndex 5 clear (omega arith) clear-IsIndex)

IsIndex-operations_example :
    IsIndex (set 9 two_levels)
    × IsIndex (reset 9 two_levels)
    × ((j : ℕ) → marked (set 9 two_levels) j ≡ ((9 == j) || marked two_levels j))
    × ((j : ℕ) → marked (reset 9 two_levels) j ≡ (not (9 == j) && marked two_levels j))
IsIndex-operations_example = IsIndex-operations 9 two_levels (omega arith) two_levels-IsIndex

next_set-Found_example : Found two_levels 6 (next_set 4096 6 two_levels)
next_set-Found_example = next_set-Found two_levels two_levels-IsIndex 6 4096 (omega arith)

prev_set-Found_example : FoundBelow two_levels (699 + 1) (prev_set 699 two_levels)
prev_set-Found_example = prev_set-Found two_levels two_levels-IsIndex 699 (omega arith)
