-- ===== src/Operator/Pull.antt =====
-- One `next` call returns the first of the rows left and leaves the others.
use my_database_engine.Common.{
  ℕ, zero, suc, ◌+◌, ◌-◌, ◌≤◌, ◌<◌, ◌≡◌, refl, ap, some, List, [], ◌∷◌, Text, arith, length, drop,
  head?, tail, get_elem?, drop-get_elem?_end, drop-get_elem?-some, Bool-cases, Option-cases,
  List-cases, take-nil, drop-suc, length-tail, ◌∙◌, inl, inr,
}
use my_database_engine.Common.Int.{ℤ, to_nat, leb_ℤ}
use my_database_engine.Ast.{Row, Expr, OrderByClause}
use my_database_engine.Doubles.{Doubles}
use my_database_engine.Expr.{evaluate_expr}
use my_database_engine.Mvcc.{VersionedRow, MvccSnapshot, is_visible}
use my_database_engine.Operator.{
  Operator, HashTable, seq_scan, versioned_scan, filter, projection, limit, sort, hash_join, next,
  skip_invisible, hits,
}
use my_database_engine.Operator.Rows.{rows_left, cost, visible_rows}

-- The state after a `next` call, with what the call returned.
pub record Pulls (fp : Doubles) (f : ℕ) (op : Operator) : Type 0 where
  pub after : Operator
  pub returns : next fp f op ≡ some (head? (rows_left fp op), after)
  pub rest : rows_left fp after ≡ tail (rows_left fp op)
  pub cheaper : cost fp after ≤ cost fp op

-- The cursor after the versions that the scan skips, and what is left there.
skip_invisible_lem :
    (s : MvccSnapshot) (versions left : List VersionedRow) (cursor : ℕ)
    → drop cursor versions ≡ left
    → ((skip_invisible s left cursor).0 ≡ head? (visible_rows s left))
      × (visible_rows s (drop (skip_invisible s left cursor).1 versions)
          ≡ tail (visible_rows s left))
unfolding skip_invisible
skip_invisible_lem s versions [] cursor e = (refl, rw e)
skip_invisible_lem s versions (v ∷ vs) cursor e =
    let further =
      skip_invisible_lem s versions vs (cursor + 1) (drop-suc versions cursor ∙ ap tail e) in
    elim (Bool-cases (is_visible s v)) [
      | inl seen ↦ ground (arith, drop-suc versions cursor)
      | inr hidden ↦ ground (arith, further.0, further.1)
    ]

module _ (fp : Doubles) (f : ℕ) where
  pull-seq_scan :
      (table : Text) (rows : List Row) (cursor : ℕ) → Pulls fp (suc f) (seq_scan table rows cursor)
  unfolding next rows_left cost
  pull-seq_scan table rows cursor = elim (Option-cases (get_elem? rows cursor)) [
    | inl e ↦ record {
      after = seq_scan table rows cursor;
      returns = ground (arith, drop-get_elem?_end rows cursor e);
      rest = rw (drop-get_elem?_end rows cursor e);
      cheaper = omega arith;
    }
    | inr (row, e) ↦ record {
      after = seq_scan table rows (cursor + 1);
      returns = ground (arith, drop-get_elem?-some rows cursor e);
      rest = rw (drop-get_elem?-some rows cursor e);
      cheaper = omega arith;
    }
  ]

  pull-sort :
      (child : Operator) (order : List OrderByClause) (buffered : List Row) (cursor : ℕ)
      → Pulls fp (suc f) (sort child order buffered cursor)
  unfolding next rows_left cost
  pull-sort child order rows cursor = elim (Option-cases (get_elem? rows cursor)) [
    | inl e ↦ record {
      after = sort child order rows cursor;
      returns = ground (arith, drop-get_elem?_end rows cursor e);
      rest = rw (drop-get_elem?_end rows cursor e);
      cheaper = omega arith;
    }
    | inr (row, e) ↦ record {
      after = sort child order rows (cursor + 1);
      returns = ground (arith, drop-get_elem?-some rows cursor e);
      rest = rw (drop-get_elem?-some rows cursor e);
      cheaper = omega arith;
    }
  ]

  pull-filter :
      (child : Operator) (p : Expr) (pulled : Pulls fp f child) (left : List Row)
      → rows_left fp child ≡ left
      → (0 < length left → Pulls fp f (filter pulled.after p))
      → Pulls fp (suc f) (filter child p)
  unfolding next rows_left cost
  pull-filter child p pulled [] e again = record {
    after = filter pulled.after p;
    returns = ground (arith, pulled.returns);
    rest = ground (arith, pulled.rest);
    cheaper = ground (arith, pulled.rest, pulled.cheaper);
  }
  pull-filter child p pulled (x ∷ xs) e again = elim (Bool-cases (evaluate_expr fp p x)) [
    | inl t ↦ record {
      after = filter pulled.after p;
      returns = ground (arith, pulled.returns);
      rest = ground (arith, pulled.rest);
      cheaper = ground (arith, pulled.rest, pulled.cheaper);
    }
    | inr t ↦
        let next_round = again (omega arith) in
        record {
          after = next_round.after;
          returns = ground (arith, pulled.returns, pulled.rest, next_round.returns);
          rest = ground (arith, pulled.rest, next_round.rest);
          cheaper = ground (arith, pulled.rest, pulled.cheaper, next_round.cheaper);
        }
  ]

  pull-projection :
      (child : Operator) (cols : List Text) (pulled : Pulls fp f child) (left : List Row)
      → rows_left fp child ≡ left
      → Pulls fp (suc f) (projection child cols)
  unfolding next rows_left cost
  pull-projection child cols pulled [] e = record {
    after = projection pulled.after cols;
    returns = ground (arith, pulled.returns);
    rest = ground (arith, pulled.rest);
    cheaper = omega (arith, pulled.cheaper);
  }
  pull-projection child cols pulled (x ∷ xs) e = record {
    after = projection pulled.after cols;
    returns = ground (arith, pulled.returns);
    rest = ground (arith, pulled.rest);
    cheaper = omega (arith, pulled.cheaper);
  }

  pull-limit :
      (child : Operator) (count : ℤ) (seen : ℕ) (pulled : Pulls fp f child) (left : List Row)
      → rows_left fp child ≡ left
      → Pulls fp (suc f) (limit child count seen)
  unfolding next rows_left cost
  pull-limit child count seen pulled left e = elim (Bool-cases (leb_ℤ count seen)) [
    | inl full ↦
        let none_left : to_nat count - seen ≡ 0 = ground arith in
        record {
          after = limit child count seen;
          returns = ground (arith, none_left);
          rest = ground (arith, none_left);
          cheaper = omega arith;
        }
    | inr open_limit ↦ elim (List-cases (rows_left fp child)) [
      | inl done ↦ record {
        after = limit pulled.after count seen;
        returns = ground (arith, pulled.returns, take-nil {A = Row} (to_nat count - seen));
        rest = ground (arith, pulled.rest, take-nil {A = Row} (to_nat count - seen));
        cheaper = omega (arith, pulled.cheaper);
      }
      | inr (x, xs, more) ↦
          let room : to_nat count - seen ≡ suc (to_nat count - (seen + 1)) = ground arith in
          record {
            after = limit pulled.after count (seen + 1);
            returns = ground (arith, pulled.returns, room);
            rest = ground (arith, pulled.rest, room);
            cheaper = omega (arith, pulled.cheaper);
          }
    ]
  ]

  pull-versioned_scan :
      (table : Text) (versions : List VersionedRow) (s : MvccSnapshot) (cursor : ℕ)
      → Pulls fp (suc f) (versioned_scan table versions s cursor)
  unfolding next rows_left cost
  pull-versioned_scan table versions s cursor =
      let skipped = skip_invisible_lem s versions (drop cursor versions) cursor refl in
      record {
        after = versioned_scan table versions s (skip_invisible s (drop cursor versions) cursor).1;
        returns = ground (arith, skipped.0);
        rest = skipped.1;
        cheaper = omega arith;
      }

  pull-hash_join :
      (build probe : Operator) (bk pk : Text) (table : HashTable) (matches : List Row)
      (probe_row : Row) (cursor : ℕ) (pulled : Pulls fp f probe)
      → (0 < length (rows_left fp probe)
          → (found : List Row) (row : Row) (i : ℕ)
          → Pulls fp f (hash_join build pulled.after bk pk table found row i))
      → Pulls fp (suc f) (hash_join build probe bk pk table matches probe_row cursor)
  unfolding next rows_left cost
  pull-hash_join build probe bk pk table matches probe_row cursor pulled again =
      elim (Option-cases (get_elem? matches cursor)) [
        | inr (match, e) ↦ record {
          after = hash_join build probe bk pk table matches probe_row (cursor + 1);
          returns = ground (arith, drop-get_elem?-some matches cursor e);
          rest = rw (drop-get_elem?-some matches cursor e);
          cheaper = omega arith;
        }
        | inl e ↦ elim (List-cases (rows_left fp probe)) [
          | inl done ↦ record {
            after = hash_join build pulled.after bk pk table matches probe_row cursor;
            returns = ground (arith, drop-get_elem?_end matches cursor e, pulled.returns);
            rest = ground (arith, drop-get_elem?_end matches cursor e, pulled.rest);
            cheaper = ground (arith, pulled.rest, pulled.cheaper);
          }
          | inr (row, rows, more) ↦ elim (Option-cases (hits pk table row)) [
            | inl miss ↦
                let round = again (ground arith) matches probe_row cursor in
                record {
                  after = round.after;
                  returns = ground (
                    arith,
                    drop-get_elem?_end matches cursor e,
                    pulled.returns,
                    pulled.rest,
                    round.returns,
                  );
                  rest =
                      ground (arith, drop-get_elem?_end matches cursor e, pulled.rest, round.rest);
                  cheaper = ground (arith, pulled.rest, pulled.cheaper, round.cheaper);
                }
            | inr (found, hit) ↦
                let round = again (ground arith) found row 0 in
                record {
                  after = round.after;
                  returns = ground (
                    arith,
                    drop-get_elem?_end matches cursor e,
                    pulled.returns,
                    pulled.rest,
                    round.returns,
                  );
                  rest =
                      ground (arith, drop-get_elem?_end matches cursor e, pulled.rest, round.rest);
                  cheaper = ground (arith, pulled.rest, pulled.cheaper, round.cheaper);
                }
          ]
        ]
      ]

-- With fuel above its cost a `next` call returns, and gives the first of the rows left.
pub next-Pulls : (fp : Doubles) (f : ℕ) (op : Operator) → cost fp op < f → Pulls fp f op
unfolding cost
next-Pulls fp zero op h = absurd (omega arith)
next-Pulls fp (suc f) (seq_scan table rows cursor) h = pull-seq_scan fp f table rows cursor
next-Pulls fp (suc f) (versioned_scan table vs s cursor) h =
    pull-versioned_scan fp f table vs s cursor
next-Pulls fp (suc f) (filter child p) h =
    let pulled = next-Pulls fp f child (omega arith) in
    pull-filter fp f child p pulled (rows_left fp child) refl λ more.
      next-Pulls fp f (filter pulled.after p)
        (omega (arith, pulled.cheaper, length-tail _ _ pulled.rest more))
next-Pulls fp (suc f) (projection child cols) h =
    pull-projection fp f child cols (next-Pulls fp f child (omega arith)) (rows_left fp child) refl
next-Pulls fp (suc f) (limit child count seen) h =
    pull-limit fp f child count seen (next-Pulls fp f child (omega arith)) (rows_left fp child) refl
next-Pulls fp (suc f) (sort child order rows cursor) h = pull-sort fp f child order rows cursor
next-Pulls fp (suc f) (hash_join build probe bk pk table matches row cursor) h =
    let pulled = next-Pulls fp f probe (omega arith) in
    pull-hash_join fp f build probe bk pk table matches row cursor pulled λ more found r i.
      next-Pulls fp f (hash_join build pulled.after bk pk table found r i)
        (omega (arith, pulled.cheaper, length-tail _ _ pulled.rest more))
