-- ===== src/Schema/Database.antt =====
-- What a database does with the operations of a migration: it refuses a name that is taken, a
-- reference to what is not there, and the removal of a table that another one refers to.
use ansuman_gpu_inference_se.Prelude.{
  String, Bool, true, false, not, ◌&&◌, ◌||◌, Option, none, some, List, [], ◌∷◌, ◌=?◌,
  if◌then◌else◌,
}
use ansuman_gpu_inference_se.Schema.{
  Column, ForeignKey, TableDef, Index, Create, create_table, create_index, Drop, drop_table,
  drop_index,
}

pub record Schema : Type 0 where
  pub tables : List TableDef
  pub indexes : List Index

abbrev has_column : String → List Column → Bool
has_column name [] = false
has_column name (c ∷ cs) = c.name =? name || has_column name cs

-- A table of that name, with that column.
abbrev pub finds : String → String → List TableDef → Bool
finds table column [] = false
finds table column (t ∷ ts) =
    (t.name =? table && has_column column t.columns) || finds table column ts

abbrev pub has_table : String → List TableDef → Bool
has_table name [] = false
has_table name (t ∷ ts) = t.name =? name || has_table name ts

abbrev pub has_index : String → List Index → Bool
has_index name [] = false
has_index name (i ∷ is) = i.name =? name || has_index name is

abbrev pub all_found : List ForeignKey → List TableDef → Bool
all_found [] ts = true
all_found (k ∷ ks) ts = finds k.table k.target ts && all_found ks ts

abbrev pub refers_to : String → List ForeignKey → Bool
refers_to name [] = false
refers_to name (k ∷ ks) = k.table =? name || refers_to name ks

-- Another table refers to the one of that name.
abbrev pub is_referenced : String → List TableDef → Bool
is_referenced name [] = false
is_referenced name (t ∷ ts) =
    (not (t.name =? name) && refers_to name t.foreign_keys) || is_referenced name ts

abbrev pub without_table : String → List TableDef → List TableDef
without_table name [] = []
without_table name (t ∷ ts) =
    let rest = without_table name ts in if t.name =? name then ts else t ∷ rest

abbrev pub without_index : String → List Index → List Index
without_index name [] = []
without_index name (i ∷ is) =
    let rest = without_index name is in if i.name =? name then is else i ∷ rest

-- A table takes its indexes with it.
abbrev pub without_indexes_of : String → List Index → List Index
without_indexes_of table [] = []
without_indexes_of table (i ∷ is) =
    let rest = without_indexes_of table is in if i.table =? table then rest else i ∷ rest

unfoldable pub create : Create → Schema → Option Schema
create (create_table t) s =
    if has_table t.name s.tables || not (all_found t.foreign_keys s.tables)
    then none
    else some (record s { tables = t ∷ s.tables })
create (create_index i) s =
    if has_index i.name s.indexes || not (finds i.table i.column s.tables)
    then none
    else some (record s { indexes = i ∷ s.indexes })

unfoldable pub drop : Drop → Schema → Option Schema
drop (drop_table name) s =
    if has_table name s.tables && not (is_referenced name s.tables)
    then some (record {
      tables = without_table name s.tables;
      indexes = without_indexes_of name s.indexes;
    })
    else none
drop (drop_index name table) s =
    if has_index name s.indexes
    then some (record s { indexes = without_index name s.indexes })
    else none

abbrev pub on_success : (Schema → Option Schema) → Option Schema → Option Schema
on_success f none = none
on_success f (some s) = f s

-- A migration runs its operations in order, and ends with the first that is refused.
unfoldable pub create_all : List Create → Schema → Option Schema
unfolding create
create_all [] s = some s
create_all (c ∷ cs) s = on_success (create_all cs) (create c s)

unfoldable pub drop_all : List Drop → Schema → Option Schema
unfolding drop
drop_all [] s = some s
drop_all (d ∷ ds) s = on_success (drop_all ds) (drop d s)
