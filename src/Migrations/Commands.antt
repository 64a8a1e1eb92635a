-- ===== src/Migrations/Commands.antt =====
-- The commands of `alembic.op` that the revisions of alembic/versions use, and their sequence.
use lead_generation_api_zyla.Prelude.{ℕ, String, Bool, Option, List, [], ◌∷◌}
use lead_generation_api_zyla.Errors.{Result, ok, ◌>>=◌}

pub data ColumnType : Type 0 where
  string : ℕ → ColumnType
  integer json date_time text : ColumnType

pub record Column : Type 0 where
  pub name : String
  pub column_type : ColumnType
  pub nullable : Bool

pub record ForeignKey : Type 0 where
  pub column_name : String
  pub table : String
  pub refers_to : String
  pub on_delete : String

pub record Table : Type 0 where
  pub name : String
  pub columns : List Column
  pub foreign_keys : List ForeignKey
  pub primary_key : List String
  -- names, where they are given, and columns
  pub unique_constraints : List (Option String × List String)

pub record Index : Type 0 where
  pub name : String
  pub table : String
  pub columns : List String
  pub unique : Bool

pub data Command : Type 0 where
  create_table : Table → Command
  create_index : Index → Command
  drop_table : String → Command
  drop_index : String → String → Command

-- `sa.Column`
abbrev pub column : String → ColumnType → Bool → Column
column name column_type nullable = record {
  name = name;
  column_type = column_type;
  nullable = nullable;
}

-- `sa.ForeignKeyConstraint` of one column
abbrev pub foreign_key : String → String → String → String → ForeignKey
foreign_key column_name table refers_to on_delete = record {
  column_name = column_name;
  table = table;
  refers_to = refers_to;
  on_delete = on_delete;
}

abbrev pub index : String → String → List String → Bool → Index
index name table columns unique = record {
  name = name;
  table = table;
  columns = columns;
  unique = unique;
}

-- what the database does at a command, on its state `S`: it may raise
pub record Op (S : Type 0) : Type 0 where
  pub table_created : Table → S → Result S
  pub index_created : Index → S → Result S
  pub table_dropped : String → S → Result S
  pub index_dropped : String → String → S → Result S

module _ {S : Type 0} (op : Op S) where
  abbrev pub perform : Command → S → Result S
  perform (create_table t) s = op.table_created t s
  perform (create_index i) s = op.index_created i s
  perform (drop_table name) s = op.table_dropped name s
  perform (drop_index name table) s = op.index_dropped name table s

  -- the body of an `upgrade` or a `downgrade`
  unfoldable pub perform_all : List Command → S → Result S
  perform_all [] s = ok s
  perform_all (c ∷ commands) s = perform c s >>= perform_all commands
