-- ===== src/Schema/Reversed.antt =====
-- The two directions of the migration undo each other.
use ansuman_gpu_inference_se.Prelude.{
  String, true, false, none, some, List, [], ◌∷◌, ◌++◌, ◌≡◌, refl, subst, ap, ◌∙◌, All, arith, inl,
  inr, Option-cases, Bool-cases, eq_iff, eq_refl,
}
use ansuman_gpu_inference_se.Schema.{
  ForeignKey, TableDef, Index, Create, create_table, create_index, Drop, drop_table, drop_index,
}
use ansuman_gpu_inference_se.Schema.Migration.{upgrade, downgrade}
use ansuman_gpu_inference_se.Schema.Database.{
  Schema, finds, has_table, has_index, all_found, refers_to, is_referenced, without_indexes_of,
  create, drop, on_success, create_all, drop_all,
}

abbrev Targets : List TableDef → List ForeignKey → Type 0
Targets ts = All (λ k. has_table k.table ts ≡ true)

abbrev Referring : List TableDef → List TableDef → Type 0
Referring ts = All (λ t. Targets ts t.foreign_keys)

abbrev Indexed : List TableDef → List Index → Type 0
Indexed ts = All (λ i. has_table i.table ts ≡ true)

-- Every foreign key and every index is of a table that is there.
pub record IsClosed (s : Schema) : Type 0 where
  pub referring : Referring s.tables s.tables
  pub indexed : Indexed s.tables s.indexes

has_table-finds :
    (table column : String) (ts : List TableDef)
    → finds table column ts ≡ true
    → has_table table ts ≡ true
has_table-finds table column [] h = h
has_table-finds table column (t ∷ ts) h = ground (arith, has_table-finds table column ts)

Targets-all_found :
    (ks : List ForeignKey) (ts : List TableDef) → all_found ks ts ≡ true → Targets ts ks
Targets-all_found [] ts h = tt
Targets-all_found (k ∷ ks) ts h = elim (Bool-cases (finds k.table k.target ts)) [
  | inl found ↦ (
    has_table-finds k.table k.target ts found,
    Targets-all_found ks ts (ground (arith, h, found)),
  )
  | inr missing ↦ absurd (ground (arith, h, missing))
]

-- Nothing of a closed schema refers to a table that is not there.
module _ (name : String) (ts : List TableDef) (absent : has_table name ts ≡ false) where
  refers_to-absent : (ks : List ForeignKey) → Targets ts ks → refers_to name ks ≡ false
  refers_to-absent [] h = refl
  refers_to-absent (k ∷ ks) h =
      ground (arith, absent, h.0, eq_iff k.table name, refers_to-absent ks h.1)

  is_referenced-absent : (us : List TableDef) → Referring ts us → is_referenced name us ≡ false
  is_referenced-absent [] h = refl
  is_referenced-absent (u ∷ us) h =
      ground (arith, refers_to-absent u.foreign_keys h.0, is_referenced-absent us h.1)

  without_indexes_of-absent : (is : List Index) → Indexed ts is → without_indexes_of name is ≡ is
  without_indexes_of-absent [] h = refl
  without_indexes_of-absent (i ∷ is) h =
      ground (arith, absent, h.0, eq_iff i.table name, without_indexes_of-absent is h.1)

-- What was there is there behind a new table.
module _ (t : TableDef) (ts : List TableDef) where
  has_table-new : (name : String) → has_table name ts ≡ true → has_table name (t ∷ ts) ≡ true
  has_table-new name h = ground (arith, h)

  Targets-new : (ks : List ForeignKey) → Targets ts ks → Targets (t ∷ ts) ks
  Targets-new [] h = tt
  Targets-new (k ∷ ks) h = (has_table-new k.table h.0, Targets-new ks h.1)

  Referring-new : (us : List TableDef) → Referring ts us → Referring (t ∷ ts) us
  Referring-new [] h = tt
  Referring-new (u ∷ us) h = (Targets-new u.foreign_keys h.0, Referring-new us h.1)

  Indexed-new : (is : List Index) → Indexed ts is → Indexed (t ∷ ts) is
  Indexed-new [] h = tt
  Indexed-new (i ∷ is) h = (has_table-new i.table h.0, Indexed-new is h.1)

abbrev undo : Create → Drop
undo (create_table t) = drop_table t.name
undo (create_index i) = drop_index i.name i.table

-- The last operation is undone first.
abbrev undo_all : List Create → List Drop
undo_all [] = []
undo_all (c ∷ cs) = undo_all cs ++ undo c ∷ []

-- An operation that was carried out leaves a closed schema, and is taken back exactly.
abbrev Undone : Create → Schema → Schema → Type 0
Undone c s s' = IsClosed s' × (drop (undo c) s' ≡ some s)

module _ (s : Schema) (closed : IsClosed s) where
  table-Undone :
      (t : TableDef)
      → has_table t.name s.tables ≡ false
      → all_found t.foreign_keys s.tables ≡ true
      → Undone (create_table t) s (record s { tables = t ∷ s.tables })
  unfolding drop
  table-Undone t absent found = (
    record {
      referring = (
        Targets-new t s.tables t.foreign_keys (Targets-all_found t.foreign_keys s.tables found),
        Referring-new t s.tables s.tables closed.referring,
      );
      indexed = Indexed-new t s.tables s.indexes closed.indexed;
    },
    ground (
      arith,
      eq_refl t.name,
      is_referenced-absent t.name s.tables absent s.tables closed.referring,
      without_indexes_of-absent t.name s.tables absent s.indexes closed.indexed,
    ),
  )

  index-Undone :
      (i : Index)
      → finds i.table i.column s.tables ≡ true
      → Undone (create_index i) s (record s { indexes = i ∷ s.indexes })
  unfolding drop
  index-Undone i found = (
    record {
      referring = closed.referring;
      indexed = (has_table-finds i.table i.column s.tables found, closed.indexed);
    },
    ground (arith, eq_refl i.name),
  )

  undo_lem : (c : Create) {s' : Schema} → create c s ≡ some s' → Undone c s s'
  unfolding create
  undo_lem (create_table t) h = elim (Bool-cases (has_table t.name s.tables)) [
    | inl taken ↦ absurd (ground (arith, h, taken))
    | inr absent ↦ elim (Bool-cases (all_found t.foreign_keys s.tables)) [
      | inl found ↦
          subst (Undone (create_table t) s) (ground (arith, h, absent, found))
            (table-Undone t absent found)
      | inr missing ↦ absurd (ground (arith, h, absent, missing))
    ]
  ]
  undo_lem (create_index i) h = elim (Bool-cases (has_index i.name s.indexes)) [
    | inl taken ↦ absurd (ground (arith, h, taken))
    | inr absent ↦ elim (Bool-cases (finds i.table i.column s.tables)) [
      | inl found ↦
          subst (Undone (create_index i) s) (ground (arith, h, absent, found))
            (index-Undone i found)
      | inr missing ↦ absurd (ground (arith, h, absent, missing))
    ]
  ]

drop_all-append :
    (ds es : List Drop) (s : Schema)
    → drop_all (ds ++ es) s ≡ on_success (drop_all es) (drop_all ds s)
unfolding drop_all
drop_all-append [] es s = refl
drop_all-append (d ∷ ds) es s =
    elim (drop d s)
      as (λ o.
        on_success (drop_all (ds ++ es)) o
        ≡ on_success (drop_all es) (on_success (drop_all ds) o)) [
          | none ↦ refl
          | some s' ↦ drop_all-append ds es s'
        ]

undo_all_lem :
    (cs : List Create) (s : Schema) {s' : Schema}
    → IsClosed s
    → create_all cs s ≡ some s'
    → drop_all (undo_all cs) s' ≡ some s
unfolding create_all
undo_all_lem [] s closed h = unfold drop_all in cc
undo_all_lem (c ∷ cs) s {s'} closed h = elim (Option-cases (create c s)) [
  | inl refused ↦ absurd (ground (arith, h, refused))
  | inr (next, done) ↦
      let (closed', undone) = undo_lem s closed c done in
      let rest = undo_all_lem cs next closed' (ground (arith, h, done)) in
      drop_all-append (undo_all cs) (undo c ∷ []) s'
      ∙ ap (on_success (drop_all (undo c ∷ []))) rest
      ∙ unfold drop_all in ap (on_success (drop_all [])) undone
]

-- On any database whose foreign keys and indexes are of tables that it has, a migration that went up
-- and then down again leaves every table and index as it was.
pub downgrade-upgrade :
    (s : Schema) {s' : Schema}
    → IsClosed s
    → create_all upgrade s ≡ some s'
    → drop_all downgrade s' ≡ some s
downgrade-upgrade s closed h = undo_all_lem upgrade s closed h
