-- ===== src/Migrations/Database.antt =====
-- What the revisions rely on of Alembic and of the database, which are not code of the repository: the
-- operations change the schema as their documentation says. `apply` has a result just where the revisions
-- rely on the success of an operation.
use aristote_dispatcher.Common.{
  String, string_eq, Bool, true, false, not, ◌&&◌, ◌||◌, ◌≡◌, Option, none, some, List, [], ◌∷◌,
  ◌==◌, if◌then◌else◌,
}
use aristote_dispatcher.Common.Dict.{lookup, insert, remove, contains}
use aristote_dispatcher.Migrations.{
  Column, Constraint, primary_key, unique, foreign_key, Operation, create_table, drop_table,
  add_column, drop_column, drop_constraint, create_foreign_key,
}

pub record Table : Type 0 where
  pub columns : List (String × Column)
  pub constraints : List (String × Constraint)

abbrev pub Schema : Type 0
Schema = List (String × Table)

abbrev pub found {ℓ} : {A : Type ℓ} → Option A → Bool
found none = false
found (some a) = true

-- Whether a constraint is about a column of its table, or refers to another table.
abbrev pub uses : String → Constraint → Bool
uses name (primary_key columns) = contains name columns
uses name (unique columns) = contains name columns
uses name (foreign_key columns referent remote) = contains name columns

abbrev refers : String → Constraint → Bool
refers table (primary_key columns) = false
refers table (unique columns) = false
refers table (foreign_key columns referent remote) = referent == table

-- Whether a table that a constraint refers to exists.
abbrev resolves : Schema → Constraint → Bool
resolves s (primary_key columns) = true
resolves s (unique columns) = true
resolves s (foreign_key columns referent remote) = found (lookup referent s)

unfoldable pub any_constraint : (Constraint → Bool) → List (String × Constraint) → Bool
any_constraint test [] = false
any_constraint test ((name, c) ∷ cs) = test c || any_constraint test cs

unfoldable pub is_referred : String → Schema → Bool
is_referred table [] = false
is_referred table ((name, t) ∷ s) =
    (not (name == table) && any_constraint (refers table) t.constraints) || is_referred table s

-- A column that holds no value in the rows that are there.
abbrev pub fills : Column → Bool
fills c = c.nullable || found c.server_default

abbrev pub with_column : String → String → Column → Schema → Table → Option Column → Option Schema
with_column table name c s t (some old) = none
with_column table name c s t none =
    if fills c then some (insert table (record t { columns = insert name c t.columns }) s) else none

abbrev pub added : String → String → Column → Schema → Option Table → Option Schema
added table name c s none = none
added table name c s (some t) = with_column table name c s t (lookup name t.columns)

abbrev pub dropped : String → String → Schema → Option Table → Option Schema
dropped table name s none = none
dropped table name s (some t) =
    if found (lookup name t.columns) && not (any_constraint (uses name) t.constraints)
    then some (insert table (record t { columns = remove name t.columns }) s)
    else none

abbrev loosened : String → String → Schema → Option Table → Option Schema
loosened table name s none = none
loosened table name s (some t) =
    if found (lookup name t.constraints)
    then some (insert table (record t { constraints = remove name t.constraints }) s)
    else none

abbrev bound : String → String → Constraint → Schema → Option Table → Option Schema
bound table name c s none = none
bound table name c s (some t) =
    if not (found (lookup name t.constraints)) && resolves s c
    then some (insert table (record t { constraints = insert name c t.constraints }) s)
    else none

abbrev created :
    String
    → List (String × Column)
    → List (String × Constraint)
    → Bool
    → Schema
    → Option Table
    → Option Schema
created table columns constraints if_not_exists s (some t) = if if_not_exists then some s else none
created table columns constraints if_not_exists s none =
    if any_constraint (λ c. not (resolves s c)) constraints
    then none
    else some (insert table (record { columns = columns; constraints = constraints }) s)

unfoldable pub apply : Operation → Schema → Option Schema
apply (create_table table columns constraints if_not_exists) s =
    created table columns constraints if_not_exists s (lookup table s)
apply (drop_table table) s =
    if found (lookup table s) && not (is_referred table s) then some (remove table s) else none
apply (add_column table name c) s = added table name c s (lookup table s)
apply (drop_column table name) s = dropped table name s (lookup table s)
apply (drop_constraint name table) s = loosened table name s (lookup table s)
apply (create_foreign_key name table referent columns remote) s =
    bound table name (foreign_key columns referent remote) s (lookup table s)

-- Whether an operation may fail for the rows that are there.
abbrev pub reads_rows : Operation → Bool
reads_rows (create_foreign_key name table referent columns remote) = true
reads_rows operation = false

pub record Database : Type 1 where
  pub State : Type 0
  pub exec : Operation → State → Option State
  pub schema : State → Schema
  pub is_empty : State → Bool
  pub performs :
      (o : Operation) (s : State) (after : Schema)
      → apply o (schema s) ≡ some after
      → (not (reads_rows o) || is_empty s) ≡ true
      → (s' : State) × (exec o s ≡ some s') × (schema s' ≡ after) × (is_empty s' ≡ is_empty s)
