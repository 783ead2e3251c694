-- ===== src/Executor/Join.antt =====
-- A join query against the pairs of rows that have the same key.
use my_database_engine.Common.{
  ℕ, ◌≤◌, ◌≡◌, refl, sym, ◌∙◌, Option, none, some, List, [], ◌∷◌, ◌++◌, map, Text, keep, flat_map,
  find, text_key, Bool,
}
use my_database_engine.Ast.{Row}
use my_database_engine.Doubles.{Doubles}
use my_database_engine.Mvcc.{MvccSnapshot}
use my_database_engine.Plan.{PhysicalPlan, hash_join}
use my_database_engine.Operator.{join_rows}
use my_database_engine.Operator.Join.{has_key, nested_loop}
use my_database_engine.Operator.Columns.{or_else, find-join_rows}
use my_database_engine.Executor.{TableStorage, done, execute}
use my_database_engine.Executor.Query.{plan_rows, query_fuel, execute-plan_rows}

-- The build rows whose key column has the value of the probe row's; none where the probe row has no
-- key column.
abbrev pub partners : Text → Text → List Row → Row → List Row
partners bk pk builds probe = elim (find pk probe) [
  | none ↦ []
  | some key ↦ keep (has_key bk key) builds
]

-- Each probe row with its partners, probe rows first in order.
abbrev pub joined_pairs : Text → Text → List Row → List Row → List (Row × Row)
joined_pairs bk pk builds [] = []
joined_pairs bk pk builds (probe ∷ probes) =
    map (λ build. (probe, build)) (partners bk pk builds probe) ++ joined_pairs bk pk builds probes

-- One row for each pair, in order: in each column it has the value of the probe row, or where that
-- lacks the column the value of the build row.
abbrev pub Merges : List Row → List (Row × Row) → Type 0
Merges [] [] = Unit
Merges [] (pair ∷ pairs) = ⊥
Merges (row ∷ rows) [] = ⊥
Merges (row ∷ rows) ((probe, build) ∷ pairs) =
    ((column : Text) → find column row ≡ or_else (find column probe) (find column build))
    × Merges rows pairs

Merges-append :
    (rows rows' : List Row) (pairs pairs' : List (Row × Row))
    → Merges rows pairs
    → Merges rows' pairs'
    → Merges (rows ++ rows') (pairs ++ pairs')
Merges-append [] rows' [] pairs' h k = k
Merges-append [] rows' (p ∷ pairs) pairs' h k = absurd h
Merges-append (r ∷ rows) rows' [] pairs' h k = absurd h
Merges-append (r ∷ rows) rows' ((p, b) ∷ pairs) pairs' h k =
    (h.0, Merges-append rows rows' pairs pairs' h.1 k)

Merges-join_rows :
    (probe : Row) (builds : List Row)
    → Merges (map (join_rows probe) builds) (map (λ build. (probe, build)) builds)
Merges-join_rows probe [] = tt
Merges-join_rows probe (build ∷ builds) =
    (λ column. find-join_rows probe build column, Merges-join_rows probe builds)

Merges-nested_loop :
    (bk pk : Text) (builds : List Row) (probe : Row)
    → Merges
        (nested_loop bk pk builds probe)
        (map (λ build. (probe, build)) (partners bk pk builds probe))
unfolding nested_loop
Merges-nested_loop bk pk builds probe = go (find pk probe)
  where
    go :
        (key : Option Text)
        → Merges
            (elim key [ none ↦ [] | some k ↦ map (join_rows probe) (keep (has_key bk k) builds) ])
            (map
              (λ build. (probe, build))
              (elim key [ none ↦ [] | some k ↦ keep (has_key bk k) builds ]))
    go none = tt
    go (some k) = Merges-join_rows probe (keep (has_key bk k) builds)

Merges-flat_map :
    (bk pk : Text) (builds probes : List Row)
    → Merges (flat_map (nested_loop bk pk builds) probes) (joined_pairs bk pk builds probes)
Merges-flat_map bk pk builds [] = tt
Merges-flat_map bk pk builds (probe ∷ probes) =
    Merges-append (nested_loop bk pk builds probe) (flat_map (nested_loop bk pk builds) probes)
      (map (λ build. (probe, build)) (partners bk pk builds probe))
      (joined_pairs bk pk builds probes) (Merges-nested_loop bk pk builds probe)
      (Merges-flat_map bk pk builds probes)

module _ (fp : Doubles) (std_sort : (Row → Row → Bool) → List Row → List Row) where
  -- With enough fuel for the join and for its sides, where the two sides run by themselves give rows,
  -- running their hash join gives one row for each pair of a probe row and a build row with the same
  -- key, in the order of a nested loop over the probe rows; it has in each column the value of the
  -- probe row, or where that lacks the column the value of the build row.
  pub execute-hash_join :
      (f : ℕ) (storage : TableStorage) (snapshot : Option MvccSnapshot) (bk pk : Text)
      (left right : PhysicalPlan) (builds probes : List Row)
      → query_fuel fp std_sort storage snapshot left ≤ f
      → query_fuel fp std_sort storage snapshot right ≤ f
      → query_fuel fp std_sort storage snapshot (hash_join bk pk left right) ≤ f
      → execute fp std_sort f storage snapshot left ≡ done builds
      → execute fp std_sort f storage snapshot right ≡ done probes
      → (rows : List Row) × (execute fp std_sort f storage snapshot (hash_join bk pk left right)
          ≡ done rows)
        × Merges rows (joined_pairs bk pk builds probes)
  unfolding plan_rows
  execute-hash_join f storage snapshot bk pk left right builds probes hl hr h el er =
      let l : plan_rows fp std_sort storage snapshot left ≡ done builds =
        sym (execute-plan_rows fp std_sort f storage snapshot left hl) ∙ el in
      let r : plan_rows fp std_sort storage snapshot right ≡ done probes =
        sym (execute-plan_rows fp std_sort f storage snapshot right hr) ∙ er in
      (
        flat_map (nested_loop bk pk builds) probes,
        execute-plan_rows fp std_sort f storage snapshot (hash_join bk pk left right) h
            ∙ rw (plan_rows, l, r) refl,
        Merges-flat_map bk pk builds probes,
      )
