-- ===== src/Table/Tests.antt =====
-- The table's theorems at a concrete table.
use cs350project.Prelude.{◌≡◌, refl, pos, some, [], ◌∷◌, arith}
use cs350project.Bitmap.{find, find_from, test_bit, mark_bit, clear_bit, clear, test}
use cs350project.Table.{Table, put, remove}
use cs350project.Table.Laws.{IsTable}

-- Slots 0 and 2 of three are taken.
abbrev table : Table
table = record {
  map = record { num_bits = 3; num_words = 1; map = 5 ∷ [] };
  elements = 70 ∷ 0 ∷ 90 ∷ [];
  size = 3;
}

abbrev full : Table
full = record {
  map = record { num_bits = 3; num_words = 1; map = 7 ∷ [] };
  elements = 70 ∷ 80 ∷ 90 ∷ [];
  size = 3;
}

table-IsTable : IsTable table
table-IsTable = record { sized = record { room = omega arith }; bits = refl; slots = refl }

put_run : put table 80 ≡ (full, pos 1)
unfolding put find find_from test_bit mark_bit
put_run = refl

abbrev shorter : Table
shorter = record {
  map = record { num_bits = 3; num_words = 1; map = 4 ∷ [] };
  elements = 0 ∷ 0 ∷ 90 ∷ [];
  size = 3;
}

remove_run : remove table (pos 0) ≡ some (shorter, 70)
unfolding remove clear test test_bit clear_bit
remove_run = refl
