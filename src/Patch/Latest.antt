-- ===== src/Patch/Latest.antt =====
-- What a setter leaves of a row: its own columns as the event has them, the others as they were.
use clear_evmi_plugin.Prelude.{
  ℕ, ◌≡◌, refl, sym, Bool, true, false, [], ◌∷◌, Option, none, some, or_else, ◌==◌, ==-eq,
  nat_equality, list_equality, pair_equality, inl, inr, ◌⊎◌, Bool-cases, if◌then◌else◌,
}
use clear_evmi_plugin.Text.{Text}
use clear_evmi_plugin.Table.{Table, find, upsert}
use clear_evmi_plugin.Table.Laws.{find-upsert, upserted}
use clear_evmi_plugin.Db.{Cell, PatchRow}
use clear_evmi_plugin.Patch.{set_cells, patch_row}

or_else_assoc : {A : Type 0} (x y z : Option A) → or_else x (or_else y z) ≡ or_else (or_else x y) z
or_else_assoc none y z = refl
or_else_assoc (some a) y z = refl

find-upsert_cell :
    (col k : Text) (v : Cell) (cells : Table Text Cell)
    → find col (upsert k v (λ _. v) cells)
      ≡ or_else (find col (upsert k v (λ _. v) [])) (find col cells)
unfolding find
find-upsert_cell col k v cells =
    rw (find-upsert k col v (λ _. v) cells, find-upsert k col v (λ _. v) [])
      (by_value (k == col) (find k cells))
  where
    by_value :
        (b : Bool) (o : Option Cell)
        → (if b then some (upserted v (λ _. v) o) else find col cells)
          ≡ or_else
              (if b then some (upserted v (λ _. v) (find k [])) else find col [])
              (find col cells)
    by_value true none = refl
    by_value true (some w) = refl
    by_value false o = refl

find-set_cells :
    (col : Text) (new cells : Table Text Cell)
    → find col (set_cells new cells) ≡ or_else (find col (set_cells new [])) (find col cells)
unfolding set_cells find
find-set_cells col [] cells = refl
find-set_cells col ((k, v) ∷ new) cells =
    rw
      (
        find-set_cells col new (upsert k v (λ _. v) cells),
        find-set_cells col new (upsert k v (λ _. v) []),
        find-upsert_cell col k v cells,
      )
      (or_else_assoc (find col (set_cells new [])) (find col (upsert k v (λ _. v) []))
        (find col cells))

-- What a list of columns and values says of a column: the last value that is listed for it.
unfoldable pub listed_last : Text → Table Text Cell → Option Cell
listed_last col [] = none
listed_last col ((k, v) ∷ new) = or_else (listed_last col new) (if k == col then some v else none)

listed_alone :
    (col k : Text) (v : Cell)
    → find col (upsert k v (λ _. v) []) ≡ (if k == col then some v else none)
unfolding find upsert
listed_alone col k v = refl

find-set_cells_last :
    (col : Text) (new : Table Text Cell) → find col (set_cells new []) ≡ listed_last col new
unfolding set_cells find listed_last
find-set_cells_last col [] = refl
find-set_cells_last col ((k, v) ∷ new) =
    rw
      (
        find-set_cells col new (upsert k v (λ _. v) []),
        find-set_cells_last col new,
        listed_alone col k v,
      )
      refl

or_else-none : {A : Type 0} (o : Option A) → o ≡ or_else o none
or_else-none none = refl
or_else-none (some a) = refl

-- The value of a column of a row, and of the row that a table has of a key.
abbrev pub cell_in : Text → Option PatchRow → Option Cell
cell_in col none = none
cell_in col (some row) = find col row.cells

abbrev pub cell_of : Text → ℕ × Text → Table (ℕ × Text) PatchRow → Option Cell
cell_of col key t = cell_in col (find key t)

abbrev fresh : Text → Table Text Cell → ℕ → PatchRow
fresh kind new block = record { kind = kind; cells = set_cells new []; last_block = block }

abbrev update : Table Text Cell → ℕ → PatchRow → PatchRow
update new block row = record row { cells = set_cells new row.cells; last_block = block }

cell_in-upserted :
    (col kind : Text) (new : Table Text Cell) (block : ℕ) (o : Option PatchRow)
    → find col (upserted (fresh kind new block) (update new block) o).cells
      ≡ or_else (find col (set_cells new [])) (cell_in col o)
cell_in-upserted col kind new block none = or_else-none (find col (set_cells new []))
cell_in-upserted col kind new block (some row) = find-set_cells col new row.cells

-- After a setter's event, a column of the row of its key is the last value that the event lists for
-- it, where the event lists one, and else what it was; so setters of different columns may come in
-- any order. The rows of other keys are as they were.
pub patch_row-cell :
    (key j : ℕ × Text) (kind : Text) (new : Table Text Cell) (block : ℕ)
    (t : Table (ℕ × Text) PatchRow) (col : Text)
    → cell_of col j (patch_row key kind new block t)
      ≡ (if key == j then or_else (listed_last col new) (cell_of col j t) else cell_of col j t)
unfolding patch_row
patch_row-cell key j kind new block t col =
    rw
      (
        sym (find-set_cells_last col new),
        find-upsert key j (fresh kind new block) (update new block) t,
      )
      (by_test (Bool-cases (key == j)))
  where
    by_test :
        ((key == j) ≡ true) ⊎ ((key == j) ≡ false)
        → cell_in col (
            if key == j
            then some (upserted (fresh kind new block) (update new block) (find key t))
            else find j t)
          ≡ (if key == j
              then or_else (find col (set_cells new [])) (cell_of col j t)
              else cell_of col j t)
    by_test (inl met) = rw (met, ==-eq key j met) (cell_in-upserted col kind new block (find j t))
    by_test (inr other) = rw other
