-- ===== src/Training/Tables.antt =====
-- The SQL database behind `TrainingMetadataStore`, which the program reaches through SQLAlchemy: an
-- interface, with the documented behaviour of a table under its primary key as laws.
use hyper_looms.Prelude.{
  ℕ, String, ◌≡◌, Bool, true, Option, none, some, List, map, ◌==◌, string_eq, if◌then◌else◌,
  contains, is_some, All, IsNodup,
}

-- A table whose primary key is `key`, as the sessions of the store leave it: each of them commits
-- what it flushed, or raises before it changed anything.
pub record TableOps (Row : Type 0) (key : Row → String) : Type 1 where
  pub Table : Type 0
  -- session.get(Row, k)
  pub find : Table → String → Option Row
  -- session.add(row) of a new row, then session.flush()
  pub insert : Row → Table → Table
  -- session.add(row) of a row that session.get returned and that was changed since
  pub update : Row → Table → Table
  -- session.scalars(select(Row).where(p).order_by(rank.desc())).all()
  pub select_desc : (Row → ℕ) → (Row → Bool) → Table → List Row

pub record TableLaws (Row : Type 0) (key : Row → String) (T : TableOps Row key) : Type 0 where
  pub find-insert :
      (r : Row) (t : T.Table) (k : String)
      → T.find t (key r) ≡ none
      → T.find (T.insert r t) k ≡ (if key r == k then some r else T.find t k)
  pub find-update :
      (r : Row) (t : T.Table) (k : String)
      → is_some (T.find t (key r)) ≡ true
      → T.find (T.update r t) k ≡ (if key r == k then some r else T.find t k)
  pub find_key : (t : T.Table) (k : String) (r : Row) → T.find t k ≡ some r → key r ≡ k
  pub select_found :
      (rank : Row → ℕ) (p : Row → Bool) (t : T.Table)
      → All (λ r. T.find t (key r) ≡ some r) (T.select_desc rank p t)
  pub select_complete :
      (rank : Row → ℕ) (p : Row → Bool) (t : T.Table) (k : String) (r : Row)
      → T.find t k ≡ some r
      → p r ≡ true
      → contains k (map key (T.select_desc rank p t)) ≡ true
  pub select_once :
      (rank : Row → ℕ) (p : Row → Bool) (t : T.Table) → IsNodup (map key (T.select_desc rank p t))
