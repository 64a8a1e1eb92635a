-- ===== src/Migrations/Laws.antt =====
-- What the revisions of alembic/versions rely on of a database, as its documentation states it.
use lead_generation_api_zyla.Prelude.{
  String, Bool, true, false, not, ◌||◌, ◌&&◌, ◌==◌, ◌≡◌, Option, none, some, List, [], ◌∷◌, all,
  if◌then◌else◌,
}
use lead_generation_api_zyla.Prelude.Text.{mem, startswith}
use lead_generation_api_zyla.Errors.{ok}
use lead_generation_api_zyla.Migrations.Commands.{Column, ForeignKey, Table, Index, Op}

abbrev column_names : List Column → List String
column_names [] = []
column_names (c ∷ columns) = c.name ∷ column_names columns

abbrev are_distinct : List String → Bool
are_distinct [] = true
are_distinct (x ∷ xs) = not (mem x xs) && are_distinct xs

-- a key of one column is the whole primary key of a table
abbrev is_only : String → List String → Bool
is_only c [] = false
is_only c (x ∷ []) = x == c
is_only c (x ∷ y ∷ xs) = false

abbrev pub refers : ForeignKey → Option Table → Bool
refers k none = false
refers k (some t) = is_only k.refers_to t.primary_key

-- the columns of a table are distinct, and its constraints name columns of its own
abbrev pub is_consistent : Table → Bool
is_consistent t =
    let own = column_names t.columns in
    are_distinct own
    && (all (λ c. mem c own) t.primary_key
        && (all (λ (u : Option String × List String). all (λ c. mem c own) u.1) t.unique_constraints
            && all (λ (k : ForeignKey). mem k.column_name own) t.foreign_keys))

-- the columns of an index are columns of its table
abbrev pub suits : Index → Option Table → Bool
suits i none = false
suits i (some t) = all (λ c. mem c (column_names t.columns)) i.columns

-- `table_of s name`: the definition of the table of a name, where there is one; `has_index s name`:
-- whether the name of an index is taken. The indexes that constraints bring have names of the database's,
-- none of which starts with `ix_`.
pub record IsDatabase {S : Type 0} (op : Op S) (table_of : S → String → Option Table)
    (has_index : S → String → Bool) : Type 0 where
  -- CREATE TABLE with a new name, consistent, whose foreign keys refer to primary keys that are there
  pub creates_table :
      (t : Table) (s : S)
      → table_of s t.name ≡ none
      → is_consistent t ≡ true
      → all (λ k. refers k (table_of s k.table)) t.foreign_keys ≡ true
      → (s' : S) × (op.table_created t s ≡ ok s')
        × ((x : String) → table_of s' x ≡ (if t.name == x then some t else table_of s x))
        × ((x : String) → startswith x "ix_" ≡ true → has_index s' x ≡ has_index s x)
  -- CREATE INDEX with a new name, on columns of a table that is there
  pub creates_index :
      (i : Index) (s : S)
      → has_index s i.name ≡ false
      → suits i (table_of s i.table) ≡ true
      → (s' : S) × (op.index_created i s ≡ ok s')
        × ((x : String) → has_index s' x ≡ ((i.name == x) || has_index s x))
        × ((x : String) → table_of s' x ≡ table_of s x)
  -- DROP TABLE and DROP INDEX right after
  pub drops_table :
      (t : Table) (s s' : S) → op.table_created t s ≡ ok s' → op.table_dropped t.name s' ≡ ok s
  pub drops_index :
      (i : Index) (s s' : S)
      → op.index_created i s ≡ ok s'
      → op.index_dropped i.name i.table s' ≡ ok s
