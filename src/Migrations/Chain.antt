-- ===== src/Migrations/Chain.antt =====
-- The whole history of the revisions, as Alembic finds it from the links.
use aristote_dispatcher.Common.{
  ℕ, subst, zero, suc, ◌≡◌, refl, sym, ap, ◌∙◌, String, string_eq, true, not, ◌||◌, Option, none,
  some, List, [], ◌∷◌, ◌++◌, ◌==◌, option_eq, inl, inr, All, Option-cases, if◌then◌else◌,
}
use aristote_dispatcher.Migrations.{Operation, Revision, versions}
use aristote_dispatcher.Migrations.Database.{Database, Schema, apply, reads_rows}

abbrev first_some {ℓ} : {A : Type ℓ} → Option A → Option A → Option A
first_some (some a) o = some a
first_some none o = o

-- The revision that comes next after `current`.
abbrev next : Option String → List Revision → Option Revision
next current [] = none
next current (r ∷ rs) = if r.down_revision == current then some r else next current rs

abbrev follow_from : (Option String → List Revision) → Option Revision → List Revision
follow_from follow none = []
follow_from follow (some r) = r ∷ follow (some r.revision)

-- At most as many revisions as there are files.
unfoldable pub follow : ℕ → Option String → List Revision
follow zero current = []
follow (suc fuel) current = follow_from (follow fuel) (next current versions)

unfoldable pub history : List Revision
history = follow 6 none

abbrev pub upgrades : List Revision → List Operation
upgrades [] = []
upgrades (r ∷ rs) = r.upgrade ++ upgrades rs

-- The last revision first.
abbrev pub downgrades : List Revision → List Operation
downgrades [] = []
downgrades (r ∷ rs) = downgrades rs ++ r.downgrade

abbrev pub and_then {ℓ} : {A : Type ℓ} → (A → Option A) → Option A → Option A
and_then f none = none
and_then f (some a) = f a

unfoldable pub apply_all : List Operation → Schema → Option Schema
apply_all [] s = some s
apply_all (o ∷ os) s = and_then (apply_all os) (apply o s)

module _ (d : Database) where
  unfoldable pub exec_all : List Operation → d.State → Option d.State
  exec_all [] s = some s
  exec_all (o ∷ os) s = and_then (exec_all os) (d.exec o s)

  -- Operations that have a result on the schema are performed on a database with that schema, unless one
  -- reads rows and there are some.
  pub performs_all :
      (os : List Operation) (s : d.State) (after : Schema)
      → apply_all os (d.schema s) ≡ some after
      → All (λ o. (not (reads_rows o) || d.is_empty s) ≡ true) os
      → (s' : d.State) × (exec_all os s ≡ some s')
        × (d.schema s' ≡ after)
        × (d.is_empty s' ≡ d.is_empty s)
  unfolding apply_all exec_all
  performs_all [] s after applied fits = let same : d.schema s ≡ after = cc in (s, refl, same, refl)
  performs_all (o ∷ os) s after applied fits = elim (Option-cases (apply o (d.schema s))) [
    | inl undone ↦ let stuck = rw undone at applied in cc
    | inr (mid, one) ↦
        let (s', done, e, empty) = d.performs o s mid one fits.0 in
        let (s'', rest, e', empty') =
          performs_all os s' after (ap (apply_all os) e ∙ rw one at applied)
            (subst (λ b. All (λ o. (not (reads_rows o) || b) ≡ true) os) (sym empty) fits.1) in
        (s'', ap (and_then (exec_all os)) done ∙ rest, e', empty' ∙ empty)
  ]
