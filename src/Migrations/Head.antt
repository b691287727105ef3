-- ===== src/Migrations/Head.antt =====
-- The whole history on a database with no tables: what it leaves, and the way back.
use aristote_dispatcher.Common.{
  subst, ◌≡◌, refl, sym, ap, ◌∙◌, String, string_eq, Bool, true, false, not, ◌||◌, Option, none,
  some, List, [], ◌∷◌, option_eq, inl, inr, All, Option-cases,
}
use aristote_dispatcher.Common.Dict.{lookup, All-lookup, insert, remove, contains, or_default}
use aristote_dispatcher.Migrations.{Operation}
use aristote_dispatcher.Migrations.Database.{
  Database, Schema, Table, apply, reads_rows, any_constraint, is_referred,
}
use aristote_dispatcher.Migrations.Entities.{Entity, user, metric, asked_columns}
use aristote_dispatcher.Migrations.Chain.{
  follow, history, upgrades, downgrades, apply_all, exec_all, performs_all,
}

-- The table of an entity has just the columns that its class declares.
pub record IsMapped (e : Entity) (s : Schema) : Type 0 where
  pub table : Table
  pub found : lookup e.tablename s ≡ some table
  pub columns :
      (name : String) → lookup name table.columns ≡ lookup name (asked_columns e.attributes)

-- Two dictionaries that agree at the keys of each agree.
module _ {ℓ} {V : Type ℓ} where
  abbrev Agrees : List (String × V) → List (String × V) → List (String × V) → Type ℓ
  Agrees m n = All (λ e. lookup e.0 m ≡ lookup e.0 n)

  agreeing :
      (m n : List (String × V))
      → Agrees m n m
      → Agrees m n n
      → (k : String) → lookup k m ≡ lookup k n
  agreeing m n here there k = elim (Option-cases (lookup k m)) [
    | inr (v, e) ↦ All-lookup (λ e. lookup e.0 m ≡ lookup e.0 n) k v m here e
    | inl e ↦ elim (Option-cases (lookup k n)) [
      | inr (v, e') ↦ All-lookup (λ e. lookup e.0 m ≡ lookup e.0 n) k v n there e'
      | inl e' ↦ e ∙ sym e'
    ]
  ]

unfoldable head : Schema
head = or_default (apply_all (upgrades history) []) []

abbrev table_of : Option Table → Table
table_of none = record { columns = []; constraints = [] }
table_of (some t) = t

users-IsMapped : IsMapped user head
unfolding head apply_all apply follow history lookup insert remove contains any_constraint
    is_referred asked_columns
users-IsMapped = record {
  table = table_of (lookup "users" head);
  found = refl;
  columns =
      agreeing (table_of (lookup "users" head)).columns (asked_columns user.attributes)
        (refl, (refl, (refl, (refl, (refl, (refl, (refl, (refl, (refl, tt)))))))))
        (refl, (refl, (refl, (refl, (refl, (refl, (refl, (refl, (refl, tt)))))))));
}

metrics-IsMapped : IsMapped metric head
unfolding head apply_all apply follow history lookup insert remove contains any_constraint
    is_referred asked_columns
metrics-IsMapped = record {
  table = table_of (lookup "metrics" head);
  found = refl;
  columns =
      agreeing (table_of (lookup "metrics" head)).columns (asked_columns metric.attributes)
        (
          refl,
          (
            refl,
            (
              refl,
              (
                refl,
                (
                  refl,
                  (
                    refl,
                    (
                      refl,
                      (
                        refl,
                        (
                          refl,
                          (
                            refl,
                            (refl, (refl, (refl, (refl, (refl, (refl, (refl, (refl, tt)))))))),
                          ),
                        ),
                      ),
                    ),
                  ),
                ),
              ),
            ),
          ),
        )
        (
          refl,
          (
            refl,
            (
              refl,
              (
                refl,
                (
                  refl,
                  (
                    refl,
                    (
                      refl,
                      (
                        refl,
                        (
                          refl,
                          (
                            refl,
                            (refl, (refl, (refl, (refl, (refl, (refl, (refl, (refl, tt)))))))),
                          ),
                        ),
                      ),
                    ),
                  ),
                ),
              ),
            ),
          ),
        );
}

up : apply_all (upgrades history) [] ≡ some head
unfolding head apply_all apply follow history lookup insert remove contains any_constraint
    is_referred asked_columns
up = refl

down : apply_all (downgrades history) head ≡ some []
unfolding head apply_all apply follow history lookup insert remove contains any_constraint
    is_referred asked_columns
down = refl

abbrev fits_empty :
    (d : Database) (s : d.State)
    → d.is_empty s ≡ true
    → (os : List Operation) → All (λ o. (not (reads_rows o) || d.is_empty s) ≡ true) os
fits_empty d s empty [] = tt
fits_empty d s empty (o ∷ os) = (rw empty (fits_one (reads_rows o)), fits_empty d s empty os)
  where
    fits_one : (b : Bool) → (not b || true) ≡ true
    fits_one true = refl
    fits_one false = refl

-- On a database with no tables and no rows, the upgrades of the whole history succeed, in the order that
-- their links give; the tables `users` and `metrics` then have just the columns that the classes `User` and
-- `Metric` declare, each with the type, nullability, autoincrement and default of the class; and from there
-- the downgrades succeed, the last revision first, and leave no table.
pub upgrade_downgrade :
    (d : Database) (s : d.State)
    → d.schema s ≡ []
    → d.is_empty s ≡ true
    → (s' : d.State) × (exec_all d (upgrades history) s ≡ some s')
      × IsMapped user (d.schema s')
      × IsMapped metric (d.schema s')
      × ((s'' : d.State) × (exec_all d (downgrades history) s' ≡ some s'') × (d.schema s'' ≡ []))
upgrade_downgrade d s no_tables empty =
    let (s', upgraded, e, same) =
      performs_all d (upgrades history) s head (ap (apply_all (upgrades history)) no_tables ∙ up)
        (fits_empty d s empty (upgrades history)) in
    let (s'', downgraded, e', _) =
      performs_all d (downgrades history) s' [] (ap (apply_all (downgrades history)) e ∙ down)
        (fits_empty d s' (same ∙ empty) (downgrades history)) in
    (
      s',
      upgraded,
      subst (IsMapped user) (sym e) users-IsMapped,
      subst (IsMapped metric) (sym e) metrics-IsMapped,
      (s'', downgraded, e'),
    )
