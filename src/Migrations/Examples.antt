-- ===== src/Migrations/Examples.antt =====
-- The theorems about the revisions on a database that is its schema.
use aristote_dispatcher.Common.{
  string_eq, ◌≡◌, refl, Bool, true, false, some, String, List, [], ◌∷◌,
}
use aristote_dispatcher.Common.Dict.{lookup, contains}
use aristote_dispatcher.Migrations.{
  column, integer, string, float, Column, metric_fields, metrics_columns, metrics_constraints,
}
use aristote_dispatcher.Migrations.Additions.{metrics_fields, Adds-undone}
use aristote_dispatcher.Migrations.Chain.{history, upgrades, downgrades, exec_all}
use aristote_dispatcher.Migrations.Database.{Database, Schema, Table, apply, any_constraint}
use aristote_dispatcher.Migrations.Dictionary.{inserts}
use aristote_dispatcher.Migrations.Entities.{user, metric}
use aristote_dispatcher.Migrations.Head.{IsMapped, upgrade_downgrade}

-- Without a row in it, and with some.
abbrev in_memory : Bool → Database
in_memory empty = record {
  State = Schema;
  exec = apply;
  schema = λ s. s;
  is_empty = λ s. empty;
  performs = λ o s after applied _. (after, applied, refl, refl);
}

upgrade_downgrade_example :
    (s' : Schema) × (exec_all (in_memory true) (upgrades history) [] ≡ some s')
    × IsMapped user s'
    × IsMapped metric s'
    × ((s'' : Schema) × (exec_all (in_memory true) (downgrades history) s' ≡ some s'') × (s'' ≡ []))
upgrade_downgrade_example = upgrade_downgrade (in_memory true) [] refl refl

abbrev metrics : Table
metrics = record { columns = metrics_columns; constraints = metrics_constraints }

abbrev by_hand : Schema
by_hand = ("metrics", metrics) ∷ []

abbrev fields_added : List (String × Column)
fields_added =
    ("requeue_count", column integer true)
    ∷ ("max_parallel_requests", column integer true)
    ∷ ("current_parallel_requests", column integer true)
    ∷ ("priority", column integer true)
    ∷ ("strategy", column (string 255) true)
    ∷ ("performance_score", column float true)
    ∷ []

Adds-undone_example :
    (s' : Schema) × (exec_all (in_memory false) metric_fields.upgrade by_hand ≡ some s')
    × (lookup "metrics" s'
        ≡ some (record metrics { columns = inserts fields_added metrics_columns }))
    × ((s'' : Schema) × (exec_all (in_memory false) metric_fields.downgrade s' ≡ some s'')
        × (s'' ≡ by_hand))
unfolding lookup any_constraint contains
Adds-undone_example =
    Adds-undone (in_memory false) metric_fields "metrics" fields_added by_hand metrics
      metrics_fields refl (refl, (refl, (refl, (refl, (refl, (refl, tt))))))
      (refl, (refl, (refl, (refl, (refl, (refl, tt))))))
