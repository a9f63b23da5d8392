-- ===== src/Schema/Examples.antt =====
-- The migration on an empty database, and the theorem there.
use ansuman_gpu_inference_se.Prelude.{◌≡◌, refl, Option, none, some, [], length}
use ansuman_gpu_inference_se.Schema.Migration.{upgrade, downgrade}
use ansuman_gpu_inference_se.Schema.Database.{Schema, create_all, drop_all}
use ansuman_gpu_inference_se.Schema.Reversed.{IsClosed, downgrade-upgrade}

abbrev empty : Schema
empty = record { tables = []; indexes = [] }

abbrev or_empty : Option Schema → Schema
or_empty none = empty
or_empty (some s) = s

abbrev migrated : Schema
migrated = or_empty (create_all upgrade empty)

empty-IsClosed : IsClosed empty
empty-IsClosed = record { referring = tt; indexed = tt }

migrated_lem : create_all upgrade empty ≡ some migrated
unfolding create_all
migrated_lem = refl

seven_tables : (length migrated.tables ≡ 7) × (length migrated.indexes ≡ 19)
unfolding create_all
seven_tables = (refl, refl)

downgrade-upgrade_example : drop_all downgrade migrated ≡ some empty
downgrade-upgrade_example = downgrade-upgrade empty empty-IsClosed migrated_lem
