-- ===== src/Mvcc.antt =====
-- include/mvcc.h: row versions and snapshot visibility.
use my_database_engine.Common.{ℕ, Bool, ◌&&◌, ◌||◌, leb, ltb, nat_beq}
use my_database_engine.Ast.{Row}

pub record VersionedRow : Type 0 where
  pub row : Row
  pub created_by : ℕ
  -- 0 if the version is not deleted
  pub deleted_by : ℕ

pub record MvccSnapshot : Type 0 where
  pub snapshot_id : ℕ

-- MvccSnapshot::isVisible
unfoldable pub is_visible : MvccSnapshot → VersionedRow → Bool
is_visible s v =
    leb v.created_by s.snapshot_id && (nat_beq v.deleted_by 0 || ltb s.snapshot_id v.deleted_by)
