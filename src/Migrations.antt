-- ===== src/Migrations.antt =====
-- alembic/versions: the revisions of the database schema, each as the operations that its `upgrade` and its
-- `downgrade` ask of Alembic. What these operations do to a database is in `Database`, as the interface of
-- code that is not here; `Chain` orders the history, `Head` has the theorems on the whole of it, and
-- `Additions` those on the revisions that add columns.
pub mod Database
pub mod Entities
pub mod Chain
pub mod Head
pub mod Dictionary
pub mod Columns
pub mod Additions
mod Examples
use aristote_dispatcher.Common.{
  ℕ, String, Bool, true, false, Option, none, some, List, [], ◌∷◌, ◌++◌,
}

pub data SqlType : Type 0 where
  integer date_time float : SqlType
  string : ℕ → SqlType
  enum : List String → SqlType

pub record Column : Type 0 where
  pub sql_type : SqlType
  pub nullable : Bool
  pub autoincrement : Bool
  pub server_default : Option String

pub data Constraint : Type 0 where
  primary_key unique : List String → Constraint
  foreign_key : List String → String → List String → Constraint

-- `create_table` has its name, its columns, its constraints by name, and `if_not_exists`;
-- `create_foreign_key` its name, the two tables, and their columns.
pub data Operation : Type 0 where
  create_table : String → List (String × Column) → List (String × Constraint) → Bool → Operation
  drop_table : String → Operation
  add_column : String → String → Column → Operation
  drop_column drop_constraint : String → String → Operation
  create_foreign_key : String → String → String → List String → List String → Operation

pub record Revision : Type 0 where
  pub revision : String
  pub down_revision : Option String
  pub upgrade : List Operation
  pub downgrade : List Operation

abbrev pub column : SqlType → Bool → Column
column sql_type nullable = record {
  sql_type = sql_type;
  nullable = nullable;
  autoincrement = false;
  server_default = none;
}

abbrev pub identifier : Column
identifier = record (column integer false) { autoincrement = true }

abbrev pub users_columns : List (String × Column)
users_columns =
    ("id", identifier)
    ∷ ("token", column (string 255) false)
    ∷ ("name", column (string 255) false)
    ∷ ("organization", column (string 255) true)
    ∷ ("email", column (string 255) true)
    ∷ ("priority", column integer false)
    ∷ ("threshold", column integer false)
    ∷ ("client_type", column (string 255) true)
    ∷ []

abbrev pub users_constraints : List (String × Constraint)
users_constraints =
    ("users_pkey", primary_key ("id" ∷ []))
    ∷ ("users_name_unique", unique ("name" ∷ []))
    ∷ ("unique_token", unique ("token" ∷ []))
    ∷ []

abbrev pub metrics_columns : List (String × Column)
metrics_columns =
    ("id", identifier)
    ∷ ("user_name", column (string 255) false)
    ∷ ("request_date", column date_time true)
    ∷ ("sent_to_llm_date", column date_time true)
    ∷ ("response_date", column date_time true)
    ∷ ("model", column (string 255) true)
    ∷ ("server", column (string 255) true)
    ∷ ("prompt_tokens", column integer true)
    ∷ ("completion_tokens", column integer true)
    ∷ []

abbrev pub metrics_constraints : List (String × Constraint)
metrics_constraints =
    ("fk_user_name", foreign_key ("user_name" ∷ []) "users" ("name" ∷ []))
    ∷ ("metrics_pkey", primary_key ("id" ∷ []))
    ∷ []

abbrev pub initial : Revision
initial = record {
  revision = "9cf7cf124677";
  down_revision = none;
  upgrade =
      create_table "users" users_columns users_constraints true
      ∷ create_table "metrics" metrics_columns metrics_constraints true
      ∷ [];
  downgrade = drop_table "metrics" ∷ drop_table "users" ∷ [];
}

abbrev pub routing_modes : List String
routing_modes = "any" ∷ "private-first" ∷ "private-only" ∷ []

abbrev pub default_routing_mode : Revision
default_routing_mode = record {
  revision = "c63af0f18c5d";
  down_revision = some "9cf7cf124677";
  upgrade =
      add_column "users" "default_routing_mode"
        (record (column (enum routing_modes) false) { server_default = some "any" })
      ∷ [];
  downgrade = drop_column "users" "default_routing_mode" ∷ [];
}

abbrev pub metric_fields : Revision
metric_fields = record {
  revision = "fa7a30b960b4";
  down_revision = some "c63af0f18c5d";
  upgrade =
      add_column "metrics" "requeue_count" (column integer true)
      ∷ add_column "metrics" "max_parallel_requests" (column integer true)
      ∷ add_column "metrics" "current_parallel_requests" (column integer true)
      ∷ add_column "metrics" "priority" (column integer true)
      ∷ add_column "metrics" "strategy" (column (string 255) true)
      ∷ add_column "metrics" "performance_score" (column float true)
      ∷ [];
  downgrade =
      drop_column "metrics" "priority"
      ∷ drop_column "metrics" "current_parallel_requests"
      ∷ drop_column "metrics" "max_parallel_requests"
      ∷ drop_column "metrics" "requeue_count"
      ∷ drop_column "metrics" "strategy"
      ∷ drop_column "metrics" "performance_score"
      ∷ [];
}

abbrev pub routing_mode : Revision
routing_mode = record {
  revision = "8e1d058df426";
  down_revision = some "fa7a30b960b4";
  upgrade = add_column "metrics" "routing_mode" (column (string 255) true) ∷ [];
  downgrade = drop_column "metrics" "routing_mode" ∷ [];
}

abbrev pub decouple_tables : Revision
decouple_tables = record {
  revision = "5dd94aeafd3c";
  down_revision = some "8e1d058df426";
  upgrade = drop_constraint "fk_user_name" "metrics" ∷ [];
  downgrade =
      create_foreign_key "fk_user_name" "metrics" "users" ("user_name" ∷ []) ("name" ∷ []) ∷ [];
}

abbrev pub organization_fields : Revision
organization_fields = record {
  revision = "212c4b4d9489";
  down_revision = some "5dd94aeafd3c";
  upgrade =
      add_column "metrics" "user_organization" (column (string 255) true)
      ∷ add_column "metrics" "server_organization" (column (string 255) true)
      ∷ [];
  downgrade =
      drop_column "metrics" "server_organization" ∷ drop_column "metrics" "user_organization" ∷ [];
}

-- The files of the folder, in the order of their names.
abbrev pub versions : List Revision
versions =
    organization_fields ∷ decouple_tables ∷ routing_mode ∷ initial ∷ default_routing_mode
    ∷ metric_fields ∷ []
