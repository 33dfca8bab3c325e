-- ===== src/Cli/Table.antt =====
-- The table of cmd/forge/main.go: a tabwriter that keeps its first error.
use env_forge.Prelude.{List, [], ◌∷◌, ◌++◌, Option, none, some, Text}
use env_forge.Go.{Error, err}
use env_forge.Cli.{Printer, tabbed, Command}

-- `rows` is what the tabwriter was given
pub record Table : Type 0 where
  pub rows : List Text
  pub failed : Option Error

abbrev pub new_table : Table
new_table = record { rows = []; failed = none }

module _ (p : Printer) where
  abbrev pub written : Option Error → Text → List Text → Table
  written none r before = record { rows = before ++ r ∷ []; failed = none }
  written (some e) r before = record { rows = before; failed = some e }

  abbrev pub row_after : Option Error → Text → List Text → Table
  row_after none r before = written (p.write before r) r before
  row_after (some e) r before = record { rows = before; failed = some e }

  -- row
  unfoldable pub row : Text → Table → Table
  row r t = row_after t.failed r t.rows

  abbrev pub flush_after : Option Error → List Text → Command (Unit {0})
  flush_after none rows s = (p.flush rows, record s { out = s.out ++ tabbed rows ∷ [] })
  flush_after (some e) rows s = (err e, s)

  -- flush
  unfoldable pub flush : Table → Command (Unit {0})
  flush t = flush_after t.failed t.rows
