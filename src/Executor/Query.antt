-- ===== src/Executor/Query.antt =====
-- A query run to its end gives the rows of the plan's relational meaning.
use my_database_engine.Common.{
  ℕ, ◌+◌, ◌≤◌, ◌≡◌, refl, ap, ◌∙◌, Bool, Option, none, some, List, [], ◌∷◌, map, Text, arith,
  length, take, keep, flat_map, leb, find, text_key, if◌then◌else◌,
}
use my_database_engine.Common.Int.{to_nat}
use my_database_engine.Ast.{Row}
use my_database_engine.Doubles.{Doubles}
use my_database_engine.Expr.{evaluate_expr}
use my_database_engine.Mvcc.{MvccSnapshot, is_visible}
use my_database_engine.Plan.{PhysicalPlan, seq_scan, hash_join}
use my_database_engine.Operator.{Operator, drain, project_row}
use my_database_engine.Operator.Compare.{row_less}
use my_database_engine.Operator.Rows.{visible_rows}
use my_database_engine.Operator.Open.{open_operator}
use my_database_engine.Operator.Opened.{all_rows, opened_cost, open_fuel, opens, drain_all}
use my_database_engine.Operator.Join.{nested_loop, join-nested_loop}
use my_database_engine.Executor
use my_database_engine.Executor.{
  TableStorage, Outcome, done, throws, undefined, out_of_fuel, ◌>>=◌, as_version, table_not_found,
  scan_of, build, execute,
}

-- The rows of a table under a snapshot: every row counts as written by transaction 1.
unfoldable pub snapshot_rows : Option MvccSnapshot → List Row → List Row
snapshot_rows none rows = rows
snapshot_rows (some s) rows = if leb 1 s.snapshot_id then rows else []

visible_rows-as_version :
    (s : MvccSnapshot) (rows : List Row)
    → visible_rows s (map as_version rows) ≡ snapshot_rows (some s) rows
unfolding as_version is_visible snapshot_rows
visible_rows-as_version s [] = ground arith
visible_rows-as_version s (row ∷ rows) = ground (arith, visible_rows-as_version s rows)

abbrev map_done {ℓ κ} : {A : Type ℓ} {B : Type κ} → (A → B) → Outcome A → Outcome B
map_done f m = m >>= λ a. done (f a)

-- Two ways round a square of functions agree on outcomes.
map_done_square {ℓ} :
    {A B C D : Type ℓ} (g : A → B) (h : B → D) (k : A → C) (l : C → D) (m : Outcome A)
    → ((a : A) → h (g a) ≡ l (k a))
    → map_done h (map_done g m) ≡ map_done l (map_done k m)
map_done_square g h k l (done a) e = ap done (e a)
map_done_square g h k l (throws t) e = refl
map_done_square g h k l undefined e = refl
map_done_square g h k l out_of_fuel e = refl

module _ (fp : Doubles) (std_sort : (Row → Row → Bool) → List Row → List Row) where
  -- The relational meaning of a plan: an exception if a table is missing, else its rows.
  unfoldable pub plan_rows : TableStorage → Option MvccSnapshot → PhysicalPlan → Outcome (List Row)
  plan_rows storage snapshot (seq_scan name) = elim (find name storage) [
    | none ↦ throws (table_not_found name)
    | some rows ↦ done (snapshot_rows snapshot rows)
  ]
  plan_rows storage snapshot (PhysicalPlan.filter predicate child) =
      map_done (keep (evaluate_expr fp predicate)) (plan_rows storage snapshot child)
  plan_rows storage snapshot (PhysicalPlan.projection cols child) =
      map_done (map (project_row cols)) (plan_rows storage snapshot child)
  plan_rows storage snapshot (PhysicalPlan.sort order child) =
      map_done (std_sort (row_less fp order)) (plan_rows storage snapshot child)
  plan_rows storage snapshot (PhysicalPlan.limit count child) =
      map_done (take (to_nat count)) (plan_rows storage snapshot child)
  plan_rows storage snapshot (hash_join bk pk left right) = do
    build_rows ← plan_rows storage snapshot left
    probe_rows ← plan_rows storage snapshot right
    done (flat_map (nested_loop bk pk build_rows) probe_rows)

  -- The fuel that a query needs.
  unfoldable pub query_fuel : TableStorage → Option MvccSnapshot → PhysicalPlan → ℕ
  unfolding open_fuel
  query_fuel storage snapshot plan = elim (build storage snapshot plan) [
    | done op ↦
        open_fuel fp std_sort op
        + (opened_cost fp std_sort op + length (all_rows fp std_sort op) + 2)
    | _ ↦ 0
  ]

  join_outcomes :
      (bk pk : Text) (m n : Outcome Operator)
      → map_done
          (all_rows fp std_sort)
          (m >>= λ l. n >>= λ r. done (Operator.hash_join l r bk pk [] [] [] 0))
        ≡ (map_done (all_rows fp std_sort) m >>= λ bs.
            map_done (all_rows fp std_sort) n >>= λ ps. done (flat_map (nested_loop bk pk bs) ps))
  unfolding all_rows
  join_outcomes bk pk (done l) (done r) = ap done (join-nested_loop bk pk _ _)
  join_outcomes bk pk (done l) (throws t) = refl
  join_outcomes bk pk (done l) undefined = refl
  join_outcomes bk pk (done l) out_of_fuel = refl
  join_outcomes bk pk (throws t) n = refl
  join_outcomes bk pk undefined n = refl
  join_outcomes bk pk out_of_fuel n = refl

  build_rows :
      (storage : TableStorage) (snapshot : Option MvccSnapshot) (plan : PhysicalPlan)
      → map_done (all_rows fp std_sort) (build storage snapshot plan)
        ≡ plan_rows storage snapshot plan
  unfolding build plan_rows all_rows snapshot_rows
  build_rows storage none (seq_scan name) = ground arith
  build_rows storage (some s) (seq_scan name) =
      elim (find name storage)
        as (λ o.
          map_done (all_rows fp std_sort) (elim o [
            | none ↦ throws (table_not_found name)
            | some rows ↦ done (scan_of (some s) name rows)
          ])
          ≡ elim o [
            | none ↦ throws (table_not_found name)
            | some rows ↦ done (snapshot_rows (some s) rows)
          ]) [ none ↦ refl | some rows ↦ ap done (visible_rows-as_version s rows) ]
  build_rows storage snapshot (PhysicalPlan.filter p child) =
      map_done_square _ _ _ (keep (evaluate_expr fp p)) (build storage snapshot child) (λ op. refl)
      ∙ ap (map_done _) (build_rows storage snapshot child)
  build_rows storage snapshot (PhysicalPlan.projection cols child) =
      map_done_square _ _ _ (map (project_row cols)) (build storage snapshot child) (λ op. refl)
      ∙ ap (map_done _) (build_rows storage snapshot child)
  build_rows storage snapshot (PhysicalPlan.sort order child) =
      map_done_square _ _ _ (std_sort (row_less fp order)) (build storage snapshot child)
        (λ op. refl)
      ∙ ap (map_done _) (build_rows storage snapshot child)
  build_rows storage snapshot (PhysicalPlan.limit count child) =
      map_done_square _ _ _ (take (to_nat count)) (build storage snapshot child) (λ op. refl)
      ∙ ap (map_done _) (build_rows storage snapshot child)
  build_rows storage snapshot (hash_join bk pk left right) =
      join_outcomes bk pk (build storage snapshot left) (build storage snapshot right)
      ∙ rw (build_rows storage snapshot left, build_rows storage snapshot right)

  -- Opening an operator and reading it to its end gives all its rows.
  run_operator :
      (f : ℕ) (op : Operator)
      → open_fuel fp std_sort op
          + (opened_cost fp std_sort op + length (all_rows fp std_sort op) + 2)
        ≤ f
      → (Executor.fueled (open_operator fp std_sort f op) >>= λ op'.
          Executor.fueled (drain fp f op') >>= λ p. done p.0)
        ≡ done (all_rows fp std_sort op)
  run_operator f op h =
      let o = opens fp std_sort f op (omega arith) in
      let d = drain_all fp f o.after (rw o.gives (omega (arith, o.cheap))) in
      rw o.returns (rw d.returns (rw o.gives))

  -- With the fuel of `query_fuel` or more, a query returns the rows of the plan's meaning, or throws
  -- as the meaning says.
  pub execute-plan_rows :
      (f : ℕ) (storage : TableStorage) (snapshot : Option MvccSnapshot) (plan : PhysicalPlan)
      → query_fuel storage snapshot plan ≤ f
      → execute fp std_sort f storage snapshot plan ≡ plan_rows storage snapshot plan
  unfolding execute query_fuel
  execute-plan_rows f storage snapshot plan h = go (build storage snapshot plan) refl
    where
      go :
          (m : Outcome Operator)
          → build storage snapshot plan ≡ m
          → execute fp std_sort f storage snapshot plan ≡ plan_rows storage snapshot plan
      go (done op) e =
          rw (← build_rows storage snapshot plan)
            (rw e (run_operator f op (rw (e, query_fuel) at h)))
      go (throws t) e = rw (← build_rows storage snapshot plan) (rw e)
      go undefined e = rw (← build_rows storage snapshot plan) (rw e)
      go out_of_fuel e = rw (← build_rows storage snapshot plan) (rw e)
