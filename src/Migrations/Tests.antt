-- ===== src/Migrations/Tests.antt =====
-- A database that knows its tables and the names of its indexes, the newest first.
use lead_generation_api_zyla.Prelude.{
  Option, none, some, ◌&&◌, String, Bool, true, false, ◌==◌, List, [], ◌∷◌, all, if◌then◌else◌,
}
use lead_generation_api_zyla.Prelude.Text.{mem}
use lead_generation_api_zyla.Errors.{Result, ok, err, unexpected}
use lead_generation_api_zyla.Migrations.Commands.{Table, Op}
use lead_generation_api_zyla.Migrations.Laws.{refers, is_consistent, suits}
use lead_generation_api_zyla.Migrations.Order.{known}

record Schema : Type 0 where
  tables : List Table
  indexes : List String

abbrev is_some {ℓ} : {A : Type ℓ} → Option A → Bool
is_some none = false
is_some (some a) = true

abbrev refused : Result Schema
refused = err (unexpected "OperationalError")

abbrev without {ℓ} :
    {A : Type ℓ} → String → (A → String) → List A → (List A → Schema) → Result Schema
without name name_of [] f = refused
without name name_of (x ∷ rows) f = if name_of x == name then ok (f rows) else refused

demo_op : Op Schema
demo_op = record {
  table_created = λ t s.
      if is_some (known s.tables t.name)
      then refused
      else if is_consistent t && all (λ k. refers k (known s.tables k.table)) t.foreign_keys
      then ok (record s { tables = t ∷ s.tables })
      else refused;
  index_created = λ i s.
      if mem i.name s.indexes
      then refused
      else if suits i (known s.tables i.table)
      then ok (record s { indexes = i.name ∷ s.indexes })
      else refused;
  table_dropped = λ name s.
      without name (λ (t : Table). t.name) s.tables (λ tables. record s { tables = tables });
  index_dropped =
      λ name table s. without name (λ x. x) s.indexes (λ names. record s { indexes = names });
}

abbrev table_of : Schema → String → Option Table
table_of s name = known s.tables name

abbrev has_index : Schema → String → Bool
has_index s name = mem name s.indexes

abbrev empty_schema : Schema
empty_schema = record { tables = []; indexes = [] }
