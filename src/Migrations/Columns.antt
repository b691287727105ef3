-- ===== src/Migrations/Columns.antt =====
-- The revisions that add columns to a table, on any database.
use aristote_dispatcher.Common.{
  subst, ◌≡◌, refl, sym, ap, ◌∙◌, String, string_eq, Bool, true, false, not, ◌&&◌, none, some, List,
  [], ◌∷◌, ◌==◌, inl, inr, arith, All, Bool-cases,
}
use aristote_dispatcher.Common.Dict.{
  lookup, insert, remove, contains, keys, lookup-insert, lookup-insert_self,
}
use aristote_dispatcher.Migrations.{Column, Operation, add_column, drop_column, Revision}
use aristote_dispatcher.Migrations.Database.{
  Schema, Table, apply, any_constraint, found, uses, fills,
}
use aristote_dispatcher.Migrations.Chain.{and_then, apply_all}
use aristote_dispatcher.Migrations.Dictionary.{
  inserts, removes, remove_absent, insert-insert, insert_same, remove-inserts, found-inserts,
}

abbrev pub adds : String → List (String × Column) → List Operation
adds table [] = []
adds table ((name, c) ∷ cs) = add_column table name c ∷ adds table cs

abbrev pub drops : String → List String → List Operation
drops table [] = []
drops table (name ∷ names) = drop_column table name ∷ drops table names

-- Each name once, and a default for each column that may not be null.
abbrev pub addable : List (String × Column) → Bool
addable [] = true
addable ((name, c) ∷ cs) = (fills c && not (contains name (keys cs))) && addable cs

-- Each name is still there.
abbrev pub droppable : List String → List (String × Column) → Bool
droppable [] cs = true
droppable (name ∷ names) cs = contains name (keys cs) && droppable names (remove name cs)

-- A revision that adds columns to one table, and whose downgrade drops them all, in whatever order.
pub record IsAddition (r : Revision) : Type 0 where
  pub table : String
  pub columns : List (String × Column)
  pub names : List String
  pub up : r.upgrade ≡ adds table columns
  pub down : r.downgrade ≡ drops table names
  pub each_added : addable columns ≡ true
  pub each_dropped : droppable names columns ≡ true
  pub of_columns : All (λ name. contains name (keys columns) ≡ true) names
  pub no_other : removes names columns ≡ []

abbrev pub put : String → Table → List (String × Column) → Schema → Schema
put table t columns s = insert table (record t { columns = columns }) s

and_true : (a b : Bool) → (a && b) ≡ true → (a ≡ true) × (b ≡ true)
and_true true b h = (refl, h)
and_true false b h = cc

contains_first : (name : String) (names : List String) → contains name (name ∷ names) ≡ true
unfolding contains
contains_first name names = ground (arith, string_eq.decides name name)

contains_later :
    (first name : String) (names : List String)
    → contains name names ≡ true
    → contains name (first ∷ names) ≡ true
unfolding contains
contains_later first name names h = ground arith

still_new :
    (name n : String) (c : Column) (names : List String) (columns : List (String × Column))
    → not (contains name names) ≡ true
    → contains n names ≡ true
    → lookup n columns ≡ none
    → lookup n (insert name c columns) ≡ none
still_new name n c names columns fresh inside absent = elim (Bool-cases (name == n)) [
  | inr other ↦ lookup-insert name n c columns ∙ rw other absent
  | inl same ↦
      let twice : not (contains n names) ≡ true =
        subst (λ x. not (contains x names) ≡ true) ((string_eq.decides name n).0 same) fresh in
      let wrong = rw inside at twice in cc
]

module _ (table : String) where
  apply-add :
      (name : String) (c : Column) (s : Schema) (t : Table)
      → lookup table s ≡ some t
      → lookup name t.columns ≡ none
      → fills c ≡ true
      → apply (add_column table name c) s ≡ some (put table t (insert name c t.columns) s)
  unfolding apply
  apply-add name c s t here new full = rw (here, new, full) refl

  apply-drop :
      (name : String) (s : Schema) (t : Table)
      → lookup table s ≡ some t
      → found (lookup name t.columns) ≡ true
      → any_constraint (uses name) t.constraints ≡ false
      → apply (drop_column table name) s ≡ some (put table t (remove name t.columns) s)
  unfolding apply
  apply-drop name s t here there unused = rw (here, there, unused) refl

  pub lookup-put :
      (t : Table) (columns : List (String × Column)) (s : Schema)
      → lookup table (put table t columns s) ≡ some (record t { columns = columns })
  lookup-put t columns s = lookup-insert_self table (record t { columns = columns }) s

  pub adds-apply :
      (cs : List (String × Column)) (s : Schema) (t : Table)
      → lookup table s ≡ some t
      → addable cs ≡ true
      → ((name : String) → contains name (keys cs) ≡ true → lookup name t.columns ≡ none)
      → apply_all (adds table cs) s ≡ some (put table t (inserts cs t.columns) s)
  unfolding apply_all
  adds-apply [] s t here ok new = ap some (sym (insert_same table t s here))
  adds-apply ((name, c) ∷ cs) s t here ok new =
      let (alone, more) = and_true (fills c && not (contains name (keys cs))) (addable cs) ok in
      let (full, fresh) = and_true (fills c) (not (contains name (keys cs))) alone in
      let columns = insert name c t.columns in
      let rest =
        adds-apply cs (put table t columns s) (record t { columns = columns })
          (lookup-put t columns s) more
          (λ n inside.
            still_new name n c (keys cs) t.columns fresh inside
              (new n (contains_later name n (keys cs) inside))) in
      ap (and_then (apply_all (adds table cs)))
        (apply-add name c s t here (new name (contains_first name (keys cs))) full)
      ∙ rest
      ∙ ap some (
          insert-insert table (record t { columns = inserts cs columns })
            (record t { columns = columns }) s)

  pub drops-apply :
      (names : List String) (cs m : List (String × Column)) (s : Schema) (t : Table)
      → lookup table s ≡ some t
      → t.columns ≡ inserts cs m
      → droppable names cs ≡ true
      → All (λ name. lookup name m ≡ none) names
      → All (λ name. any_constraint (uses name) t.constraints ≡ false) names
      → apply_all (drops table names) s ≡ some (put table t (inserts (removes names cs) m) s)
  unfolding apply_all
  drops-apply [] cs m s t here same ok new unused =
      ap some (sym (insert_same table t s here) ∙ ap (λ c. put table t c s) same)
  drops-apply (name ∷ names) cs m s t here same ok new unused =
      let (named, more) =
        and_true (contains name (keys cs)) (droppable names (remove name cs)) ok in
      let columns = remove name t.columns in
      let there : found (lookup name t.columns) ≡ true =
        ap (λ l. found (lookup name l)) same ∙ found-inserts name cs m ∙ rw named refl in
      let left : columns ≡ inserts (remove name cs) m =
        ap (remove name) same
        ∙ remove-inserts name cs m
        ∙ ap (inserts (remove name cs)) (remove_absent name m new.0) in
      let rest =
        drops-apply names (remove name cs) m (put table t columns s)
          (record t { columns = columns }) (lookup-put t columns s) left more new.1 unused.1 in
      ap (and_then (apply_all (drops table names))) (apply-drop name s t here there unused.0)
      ∙ rest
      ∙ ap some (
          insert-insert table (record t { columns = inserts (removes names (remove name cs)) m })
            (record t { columns = columns }) s)
