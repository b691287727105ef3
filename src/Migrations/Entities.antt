-- ===== src/Migrations/Entities.antt =====
-- sender/entities: the columns that the two mapped classes declare.
use aristote_dispatcher.Common.{String, Bool, true, false, not, Option, none, some, List, [], ◌∷◌}
use aristote_dispatcher.Common.Dict.{or_default}
use aristote_dispatcher.Migrations.{
  SqlType, integer, date_time, float, string, enum, Column, routing_modes,
}

-- The arguments of one `Column`; the ones that no class gives are left out. `default` is for the objects of
-- the class, not for the table.
pub record Attribute : Type 0 where
  pub sql_type : SqlType
  pub primary_key : Bool
  pub autoincrement : Bool
  pub nullable : Option Bool
  pub unique : Bool
  pub server_default : Option String
  pub default : Option String

pub record Entity : Type 0 where
  pub tablename : String
  pub attributes : List (String × Attribute)

abbrev attribute : SqlType → Attribute
attribute sql_type = record {
  sql_type = sql_type;
  primary_key = false;
  autoincrement = false;
  nullable = none;
  unique = false;
  server_default = none;
  default = none;
}

abbrev required : Attribute → Attribute
required a = record a { nullable = some false }

abbrev optional : Attribute → Attribute
optional a = record a { nullable = some true }

abbrev id : Attribute
id = record (attribute integer) { primary_key = true; autoincrement = true }

abbrev pub user : Entity
user = record {
  tablename = "users";
  attributes =
      ("id", id)
      ∷ ("token", record (required (attribute (string 255))) { unique = true })
      ∷ ("name", record (required (attribute (string 255))) { unique = true })
      ∷ ("organization", optional (attribute (string 255)))
      ∷ ("email", optional (attribute (string 255)))
      ∷ ("priority", required (attribute integer))
      ∷ ("threshold", required (attribute integer))
      ∷ ("client_type", attribute (string 255))
      ∷ (
        "default_routing_mode",
        record (required (attribute (enum routing_modes))) {
          server_default = some "any";
          default = some "any";
        },
      )
      ∷ [];
}

abbrev pub metric : Entity
metric = record {
  tablename = "metrics";
  attributes =
      ("id", id)
      ∷ ("user_name", required (attribute (string 255)))
      ∷ ("user_organization", attribute (string 255))
      ∷ ("request_date", attribute date_time)
      ∷ ("sent_to_llm_date", attribute date_time)
      ∷ ("response_date", attribute date_time)
      ∷ ("model", attribute (string 255))
      ∷ ("server", attribute (string 255))
      ∷ ("server_organization", attribute (string 255))
      ∷ ("prompt_tokens", attribute integer)
      ∷ ("completion_tokens", attribute integer)
      ∷ ("strategy", attribute (string 255))
      ∷ ("requeue_count", attribute integer)
      ∷ ("max_parallel_requests", optional (attribute integer))
      ∷ ("current_parallel_requests", optional (attribute integer))
      ∷ ("priority", optional (attribute integer))
      ∷ ("performance_score", optional (attribute float))
      ∷ ("routing_mode", attribute (string 255))
      ∷ [];
}

-- The column that a class asks for: it may be null unless the class says so, or it is the primary key.
abbrev pub asked : Attribute → Column
asked a = record {
  sql_type = a.sql_type;
  nullable = or_default a.nullable (not a.primary_key);
  autoincrement = a.autoincrement;
  server_default = a.server_default;
}

unfoldable pub asked_columns : List (String × Attribute) → List (String × Column)
asked_columns [] = []
asked_columns ((name, a) ∷ rest) = (name, asked a) ∷ asked_columns rest
