-- ===== src/Schema.antt =====
-- alembic/versions/20260529_0001_phase6_schema.py: what the operations of the migration take.
pub mod Migration
pub mod Database
pub mod Reversed
mod Examples
use ansuman_gpu_inference_se.Prelude.{ℕ, String, Bool, List}

pub data ColumnType : Type 0 where
  string : ℕ → ColumnType
  date_time integer boolean json : ColumnType

-- `sa.Column`
pub record Column : Type 0 where
  pub name : String
  pub type : ColumnType
  pub nullable : Bool

pub data OnDelete : Type 0 where
  cascade restrict : OnDelete

-- `sa.ForeignKeyConstraint`, of one column.
pub record ForeignKey : Type 0 where
  pub column : String
  pub table : String
  pub target : String
  pub on_delete : OnDelete

-- The arguments of `op.create_table`.
pub record TableDef : Type 0 where
  pub name : String
  pub columns : List Column
  pub foreign_keys : List ForeignKey
  pub primary_key : String

-- The arguments of `op.create_index`, of one column.
pub record Index : Type 0 where
  pub name : String
  pub table : String
  pub column : String
  pub unique : Bool

-- The operations of `upgrade` and of `downgrade`.
pub data Create : Type 0 where
  create_table : TableDef → Create
  create_index : Index → Create

pub data Drop : Type 0 where
  drop_table : String → Drop
  drop_index : String → String → Drop
