-- ===== src/Executor.antt =====
-- include/executor.h and src/executor.cpp: the operator tree of a plan, and the run of a query.
pub mod Query
pub mod Join
pub mod Select
mod Examples
use my_database_engine.Common.{
  ℕ, Bool, Option, none, some, List, [], ◌∷◌, ◌++◌, map, Text, codes, Dict, find, text_key,
}
use my_database_engine.Ast.{Row}
use my_database_engine.Doubles.{Doubles}
use my_database_engine.Mvcc.{VersionedRow, MvccSnapshot}
use my_database_engine.Plan.{PhysicalPlan, seq_scan, hash_join}
use my_database_engine.Operator
use my_database_engine.Operator.{Operator, drain, versioned_scan}
use my_database_engine.Operator.Open.{open_operator}

-- Table name to rows.
abbrev pub TableStorage : Type 0
TableStorage = Dict Text (List Row)

-- The result of a call that may throw `std::runtime_error`. `undefined` is undefined behaviour, such
-- as a vector read out of bounds; `out_of_fuel` has no counterpart.
pub data Outcome {ℓ} (A : Type ℓ) : Type ℓ where
  done : A → Outcome A
  throws : Text → Outcome A
  undefined : Outcome A
  out_of_fuel : Outcome A

infixl 5 ◌>>=◌
abbrev pub ◌>>=◌ {ℓ κ} : {A : Type ℓ} {B : Type κ} → Outcome A → (A → Outcome B) → Outcome B
done a >>= f = f a
throws e >>= f = throws e
undefined >>= f = undefined
out_of_fuel >>= f = out_of_fuel

abbrev pub fueled {ℓ} : {A : Type ℓ} → Option A → Outcome A
fueled none = out_of_fuel
fueled (some a) = done a

-- The row as a version that every transaction sees.
unfoldable pub as_version : Row → VersionedRow
as_version row = record { row = row; created_by = 1; deleted_by = 0 }

unfoldable pub table_not_found : Text → Text
table_not_found name = codes "Table not found: " ++ name

-- The SeqScan case of Executor::build, with the rows of the table.
unfoldable pub scan_of : Option MvccSnapshot → Text → List Row → Operator
scan_of none name rows = Operator.seq_scan name rows 0
scan_of (some snapshot) name rows = versioned_scan name (map as_version rows) snapshot 0

-- Executor::build
unfoldable pub build : TableStorage → Option MvccSnapshot → PhysicalPlan → Outcome Operator
unfolding scan_of table_not_found
build storage snapshot (seq_scan name) = elim (find name storage) [
  | none ↦ throws (table_not_found name)
  | some rows ↦ done (scan_of snapshot name rows)
]
build storage snapshot (PhysicalPlan.filter predicate child) = do
  child' ← build storage snapshot child
  done (Operator.filter child' predicate)
build storage snapshot (PhysicalPlan.projection cols child) = do
  child' ← build storage snapshot child
  done (Operator.projection child' cols)
build storage snapshot (PhysicalPlan.sort order child) = do
  child' ← build storage snapshot child
  done (Operator.sort child' order [] 0)
build storage snapshot (PhysicalPlan.limit count child) = do
  child' ← build storage snapshot child
  done (Operator.limit child' count 0)
build storage snapshot (hash_join build_key probe_key left right) = do
  build_child ← build storage snapshot left
  probe_child ← build storage snapshot right
  done (Operator.hash_join build_child probe_child build_key probe_key [] [] [] 0)

module _ (fp : Doubles) (std_sort : (Row → Row → Bool) → List Row → List Row) where
  -- Executor::execute; the `close` calls change nothing that is read afterwards.
  unfoldable pub execute :
      ℕ → TableStorage → Option MvccSnapshot → PhysicalPlan → Outcome (List Row)
  execute f storage snapshot plan = do
    op ← build storage snapshot plan
    op' ← fueled (open_operator fp std_sort f op)
    (rows, op'') ← fueled (drain fp f op')
    done rows
