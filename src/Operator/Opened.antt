-- ===== src/Operator/Opened.antt =====
-- An operator that has been opened gives the rows of its relational meaning, and reading it to the
-- end gives all of them.
use my_database_engine.Common.{
  ℕ, zero, suc, ◌+◌, ◌≤◌, ◌<◌, ◌≡◌, refl, Bool, some, List, [], map, arith, length, take, keep,
  flat_map, inl, inr, List-cases,
}
use my_database_engine.Common.Int.{to_nat}
use my_database_engine.Ast.{Row}
use my_database_engine.Doubles.{Doubles}
use my_database_engine.Expr.{evaluate_expr}
use my_database_engine.Operator.{
  Operator, seq_scan, versioned_scan, filter, projection, limit, sort, hash_join, drain,
  project_row,
}
use my_database_engine.Operator.Compare.{row_less}
use my_database_engine.Operator.Rows.{rows_left, cost, visible_rows, joined_rows}
use my_database_engine.Operator.Pull.{next-Pulls}
use my_database_engine.Operator.Open.{open_operator, build_table}

-- Reading to the end gives the rows left.
pub record Drains (fp : Doubles) (f : ℕ) (op : Operator) : Type 0 where
  pub after : Operator
  pub returns : drain fp f op ≡ some (rows_left fp op, after)

pub drain_all :
    (fp : Doubles) (f : ℕ) (op : Operator)
    → cost fp op + length (rows_left fp op) + 1 < f
    → Drains fp f op
unfolding drain
drain_all fp zero op h = absurd (omega arith)
drain_all fp (suc f) op h =
    let pulled = next-Pulls fp f op (omega arith) in
    elim (List-cases (rows_left fp op)) [
      | inl e ↦ record { after = pulled.after; returns = ground (arith, pulled.returns) }
      | inr (row, rows, e) ↦
          let rest = drain_all fp f pulled.after (ground (arith, pulled.rest, pulled.cheaper)) in
          record {
            after = rest.after;
            returns = ground (arith, pulled.returns, pulled.rest, rest.returns);
          }
    ]

module _ (fp : Doubles) (std_sort : (Row → Row → Bool) → List Row → List Row) where
  -- The rows that an operator gives from its `open` to its end.
  unfoldable pub all_rows : Operator → List Row
  all_rows (seq_scan table rows cursor) = rows
  all_rows (versioned_scan table versions s cursor) = visible_rows s versions
  all_rows (filter child predicate) = keep (evaluate_expr fp predicate) (all_rows child)
  all_rows (projection child cols) = map (project_row cols) (all_rows child)
  all_rows (limit child count seen) = take (to_nat count) (all_rows child)
  all_rows (sort child order buffered cursor) = std_sort (row_less fp order) (all_rows child)
  all_rows (hash_join build probe bk pk table matches probe_row cursor) =
      flat_map (joined_rows pk (build_table bk [] (all_rows build))) (all_rows probe)

  -- Bounds on the fuel of a `next` call after `open`, and on that of `open`.
  unfoldable pub opened_cost : Operator → ℕ
  unfolding all_rows
  opened_cost (filter child predicate) = opened_cost child + length (all_rows child) + 1
  opened_cost (projection child cols) = opened_cost child + 1
  opened_cost (limit child count seen) = opened_cost child + 1
  opened_cost (hash_join build probe bk pk table matches probe_row cursor) =
      opened_cost probe + length (all_rows probe) + 1
  opened_cost _ = 0

  unfoldable pub open_fuel : Operator → ℕ
  unfolding opened_cost
  open_fuel (filter child predicate) = open_fuel child
  open_fuel (projection child cols) = open_fuel child
  open_fuel (limit child count seen) = open_fuel child
  open_fuel (sort child order buffered cursor) =
      open_fuel child + (opened_cost child + length (all_rows child) + 2)
  open_fuel (hash_join build probe bk pk table matches probe_row cursor) =
      open_fuel build + open_fuel probe + (opened_cost build + length (all_rows build) + 2)
  open_fuel _ = 0

  pub record Opens (f : ℕ) (op : Operator) : Type 0 where
    pub after : Operator
    pub returns : open_operator fp std_sort f op ≡ some after
    pub gives : rows_left fp after ≡ all_rows op
    pub cheap : cost fp after ≤ opened_cost op

  pub opens : (f : ℕ) (op : Operator) → open_fuel op ≤ f → Opens f op
  unfolding open_operator rows_left cost open_fuel
  opens f (seq_scan table rows cursor) h = record {
    after = seq_scan table rows 0;
    returns = refl;
    gives = refl;
    cheap = omega arith;
  }
  opens f (versioned_scan table versions s cursor) h = record {
    after = versioned_scan table versions s 0;
    returns = refl;
    gives = refl;
    cheap = omega arith;
  }
  opens f (filter child p) h =
      let o = opens f child h in
      record {
        after = filter o.after p;
        returns = rw o.returns;
        gives = rw o.gives;
        cheap = rw o.gives (omega (arith, o.cheap));
      }
  opens f (projection child cols) h =
      let o = opens f child h in
      record {
        after = projection o.after cols;
        returns = rw o.returns;
        gives = rw o.gives;
        cheap = omega (arith, o.cheap);
      }
  opens f (limit child count seen) h =
      let o = opens f child h in
      record {
        after = limit o.after count 0;
        returns = rw o.returns;
        gives = ground (arith, o.gives);
        cheap = omega (arith, o.cheap);
      }
  opens f (sort child order buffered cursor) h =
      let o = opens f child (omega arith) in
      let d = drain_all fp f o.after (rw o.gives (omega (arith, o.cheap))) in
      record {
        after = sort d.after order (std_sort (row_less fp order) (all_rows child)) 0;
        returns = rw o.returns (rw d.returns (rw o.gives));
        gives = refl;
        cheap = omega arith;
      }
  opens f (hash_join build probe bk pk table matches row cursor) h =
      let o = opens f build (omega arith) in
      let p = opens f probe (omega arith) in
      let d = drain_all fp f o.after (rw o.gives (omega (arith, o.cheap))) in
      record {
        after = hash_join d.after p.after bk pk (build_table bk [] (all_rows build)) [] row 0;
        returns = rw o.returns (rw p.returns (rw d.returns (rw o.gives)));
        gives = rw p.gives;
        cheap = rw p.gives (omega (arith, p.cheap));
      }
