-- ===== src/Migrations/Additions.antt =====
-- Up and down again by a revision that adds columns, on a database that holds rows too.
use aristote_dispatcher.Common.{
  ◌≡◌, refl, ap, ◌∙◌, String, string_eq, Bool, true, false, not, ◌||◌, none, some, List, [], ◌∷◌,
  ◌==◌, subst, inl, inr, Bool-cases, All, All-map,
}
use aristote_dispatcher.Common.Dict.{lookup, insert, contains, remove, keys}
use aristote_dispatcher.Migrations.{
  column, integer, string, float, enum, routing_modes, Column, Revision, default_routing_mode,
  metric_fields, routing_mode, organization_fields,
}
use aristote_dispatcher.Migrations.Chain.{exec_all, performs_all}
use aristote_dispatcher.Migrations.Columns.{
  adds, drops, put, IsAddition, adds-apply, drops-apply, lookup-put,
}
use aristote_dispatcher.Migrations.Database.{Database, Table, any_constraint, uses, reads_rows}
use aristote_dispatcher.Migrations.Dictionary.{inserts, removes, insert-insert, insert_same}

unfoldable default_routing_mode-IsAddition : IsAddition default_routing_mode
unfolding contains remove
default_routing_mode-IsAddition = record {
  table = "users";
  columns =
      (
        "default_routing_mode",
        record (column (enum routing_modes) false) { server_default = some "any" },
      )
      ∷ [];
  names = "default_routing_mode" ∷ [];
  up = refl;
  down = refl;
  each_added = refl;
  each_dropped = refl;
  of_columns = (refl, tt);
  no_other = refl;
}

unfoldable metric_fields-IsAddition : IsAddition metric_fields
unfolding contains remove
metric_fields-IsAddition = record {
  table = "metrics";
  columns =
      ("requeue_count", column integer true)
      ∷ ("max_parallel_requests", column integer true)
      ∷ ("current_parallel_requests", column integer true)
      ∷ ("priority", column integer true)
      ∷ ("strategy", column (string 255) true)
      ∷ ("performance_score", column float true)
      ∷ [];
  names =
      "priority" ∷ "current_parallel_requests" ∷ "max_parallel_requests" ∷ "requeue_count"
      ∷ "strategy" ∷ "performance_score" ∷ [];
  up = refl;
  down = refl;
  each_added = refl;
  each_dropped = refl;
  of_columns = (refl, (refl, (refl, (refl, (refl, (refl, tt))))));
  no_other = refl;
}

unfoldable routing_mode-IsAddition : IsAddition routing_mode
unfolding contains remove
routing_mode-IsAddition = record {
  table = "metrics";
  columns = ("routing_mode", column (string 255) true) ∷ [];
  names = "routing_mode" ∷ [];
  up = refl;
  down = refl;
  each_added = refl;
  each_dropped = refl;
  of_columns = (refl, tt);
  no_other = refl;
}

unfoldable organization_fields-IsAddition : IsAddition organization_fields
unfolding contains remove
organization_fields-IsAddition = record {
  table = "metrics";
  columns =
      ("user_organization", column (string 255) true)
      ∷ ("server_organization", column (string 255) true)
      ∷ [];
  names = "server_organization" ∷ "user_organization" ∷ [];
  up = refl;
  down = refl;
  each_added = refl;
  each_dropped = refl;
  of_columns = (refl, (refl, tt));
  no_other = refl;
}

added_rows_free :
    (table : String) (cs : List (String × Column)) (b : Bool)
    → All (λ o. (not (reads_rows o) || b) ≡ true) (adds table cs)
added_rows_free table [] b = tt
added_rows_free table (c ∷ cs) b = (refl, added_rows_free table cs b)

dropped_rows_free :
    (table : String) (names : List String) (b : Bool)
    → All (λ o. (not (reads_rows o) || b) ≡ true) (drops table names)
dropped_rows_free table [] b = tt
dropped_rows_free table (n ∷ names) b = (refl, dropped_rows_free table names b)

All-contains {μ} :
    (P : String → Type μ) (names : List String)
    → All P names
    → (name : String) → contains name names ≡ true
    → P name
unfolding contains
All-contains P [] all name h = cc
All-contains P (n ∷ names) all name h = elim (Bool-cases (n == name)) [
  | inl same ↦ subst P ((string_eq.decides n name).0 same) all.0
  | inr other ↦ All-contains P names all.1 name (rw other at h)
]

-- A revision that adds columns, on a database that has its table, with rows or without, but no column of
-- these names, nor a constraint on one: the upgrade succeeds, and the table has its columns and the new ones;
-- then the downgrade succeeds, in whatever order it drops the columns, and the schema is what it was.
addition_undone :
    (d : Database) (r : Revision) (a : IsAddition r) (s : d.State) (t : Table)
    → lookup a.table (d.schema s) ≡ some t
    → All (λ name. lookup name t.columns ≡ none) (keys a.columns)
    → All (λ name. any_constraint (uses name) t.constraints ≡ false) (keys a.columns)
    → (s' : d.State) × (exec_all d r.upgrade s ≡ some s')
      × (lookup a.table (d.schema s') ≡ some (record t { columns = inserts a.columns t.columns }))
      × ((s'' : d.State) × (exec_all d r.downgrade s' ≡ some s'') × (d.schema s'' ≡ d.schema s))
addition_undone d r a s t here new unused =
    let columns = inserts a.columns t.columns in
    let (s', upgraded, e, _) =
      performs_all d (adds a.table a.columns) s (put a.table t columns (d.schema s))
        (adds-apply a.table a.columns (d.schema s) t here a.each_added
          (All-contains (λ name. lookup name t.columns ≡ none) (keys a.columns) new))
        (added_rows_free a.table a.columns (d.is_empty s)) in
    let there : lookup a.table (d.schema s') ≡ some (record t { columns = columns }) =
      ap (lookup a.table) e ∙ lookup-put a.table t columns (d.schema s) in
    let (s'', downgraded, e', _) =
      performs_all d (drops a.table a.names) s'
        (put a.table t (inserts (removes a.names a.columns) t.columns) (d.schema s'))
        (drops-apply a.table a.names a.columns t.columns (d.schema s')
          (record t { columns = columns }) there refl a.each_dropped
          (All-map a.names
            (All-contains (λ name. lookup name t.columns ≡ none) (keys a.columns) new) a.of_columns)
          (All-map a.names
            (All-contains (λ name. any_constraint (uses name) t.constraints ≡ false)
              (keys a.columns) unused)
            a.of_columns))
        (dropped_rows_free a.table a.names (d.is_empty s')) in
    let back : d.schema s'' ≡ d.schema s =
      e'
      ∙ ap (λ c. put a.table t (inserts c t.columns) (d.schema s')) a.no_other
      ∙ ap (insert a.table t) e
      ∙ insert-insert a.table t (record t { columns = columns }) (d.schema s)
      ∙ insert_same a.table t (d.schema s) here in
    (
      s',
      ap (λ o. exec_all d o s) a.up ∙ upgraded,
      there,
      (s'', ap (λ o. exec_all d o s') a.down ∙ downgraded, back),
    )

-- The revisions of the history that add columns, with their table and its new columns.
pub data Adds : Revision → String → List (String × Column) → Type 0 where
  users_mode : Adds default_routing_mode "users" (
      (
        "default_routing_mode",
        record (column (enum ("any" ∷ "private-first" ∷ "private-only" ∷ [])) false) {
          server_default = some "any";
        },
      )
      ∷ [])
  metrics_fields : Adds metric_fields "metrics" (
      ("requeue_count", column integer true)
      ∷ ("max_parallel_requests", column integer true)
      ∷ ("current_parallel_requests", column integer true)
      ∷ ("priority", column integer true)
      ∷ ("strategy", column (string 255) true)
      ∷ ("performance_score", column float true)
      ∷ [])
  metrics_mode : Adds routing_mode "metrics" (("routing_mode", column (string 255) true) ∷ [])
  metrics_organizations : Adds organization_fields "metrics" (
      ("user_organization", column (string 255) true)
      ∷ ("server_organization", column (string 255) true)
      ∷ [])

-- Each of the four revisions that add columns, on a database that has its table, with rows or without, but no
-- column of these names, nor a constraint on one: the upgrade succeeds, and the table has its columns and the
-- new ones; then the downgrade succeeds, and the schema is what it was.
pub Adds-undone :
    (d : Database) (r : Revision) (table : String) (columns : List (String × Column)) (s : d.State)
    (t : Table)
    → Adds r table columns
    → lookup table (d.schema s) ≡ some t
    → All (λ name. lookup name t.columns ≡ none) (keys columns)
    → All (λ name. any_constraint (uses name) t.constraints ≡ false) (keys columns)
    → (s' : d.State) × (exec_all d r.upgrade s ≡ some s')
      × (lookup table (d.schema s') ≡ some (record t { columns = inserts columns t.columns }))
      × ((s'' : d.State) × (exec_all d r.downgrade s' ≡ some s'') × (d.schema s'' ≡ d.schema s))
unfolding default_routing_mode-IsAddition metric_fields-IsAddition routing_mode-IsAddition
    organization_fields-IsAddition
Adds-undone d r table columns s t users_mode =
    addition_undone d r default_routing_mode-IsAddition s t
Adds-undone d r table columns s t metrics_fields = addition_undone d r metric_fields-IsAddition s t
Adds-undone d r table columns s t metrics_mode = addition_undone d r routing_mode-IsAddition s t
Adds-undone d r table columns s t metrics_organizations =
    addition_undone d r organization_fields-IsAddition s t
