-- ===== src/Migrations/Dictionary.antt =====
-- Entries put into a dictionary one after the other and taken out again, in any order.
use aristote_dispatcher.Common.{
  ◌≡◌, refl, sym, ap, ◌∙◌, String, string_eq, ◌||◌, none, some, List, [], ◌∷◌, ◌==◌, inl, inr,
  arith, Bool-cases, if◌then◌else◌,
}
use aristote_dispatcher.Common.Dict.{lookup, insert, remove, contains, keys, lookup-insert}
use aristote_dispatcher.Migrations.Database.{found}

module _ {ℓ} {V : Type ℓ} where
  abbrev pub inserts : List (String × V) → List (String × V) → List (String × V)
  inserts [] m = m
  inserts ((k, v) ∷ cs) m = inserts cs (insert k v m)

  abbrev pub removes : List String → List (String × V) → List (String × V)
  removes [] m = m
  removes (k ∷ ks) m = removes ks (remove k m)

  pub remove_absent : (k : String) (m : List (String × V)) → lookup k m ≡ none → remove k m ≡ m
  unfolding lookup remove
  remove_absent k [] h = refl
  remove_absent k ((j, w) ∷ m) h = elim (Bool-cases (j == k)) [
    | inl same ↦ let stuck = rw same at h in cc
    | inr other ↦ rw other (ap (λ t. (j, w) ∷ t) (remove_absent k m (rw other at h)))
  ]

  remove-insert :
      (k j : String) (v : V) (m : List (String × V))
      → remove k (insert j v m) ≡ (if j == k then remove k m else insert j v (remove k m))
  unfolding remove insert
  remove-insert k j v [] = ground arith
  remove-insert k j v ((i, w) ∷ m) = ground (
    arith,
    string_eq.decides j k,
    string_eq.decides i j,
    string_eq.decides i k,
    remove-insert k j v m,
  )

  pub insert-insert :
      (k : String) (v w : V) (m : List (String × V)) → insert k v (insert k w m) ≡ insert k v m
  unfolding insert
  insert-insert k v w [] = ground (arith, string_eq.decides k k)
  insert-insert k v w ((j, u) ∷ m) =
      ground (arith, string_eq.decides k k, string_eq.decides j k, insert-insert k v w m)

  pub insert_same :
      (k : String) (v : V) (m : List (String × V)) → lookup k m ≡ some v → insert k v m ≡ m
  unfolding insert lookup
  insert_same k v [] h = cc
  insert_same k v ((j, u) ∷ m) h = elim (Bool-cases (j == k)) [
    | inl same ↦
        let value : some u ≡ some v = rw same at h in
        let e : u ≡ v = cc in rw same (λ i. (sym ((string_eq.decides j k).0 same) i, sym e i) ∷ m)
    | inr other ↦ rw other (ap (λ t. (j, u) ∷ t) (insert_same k v m (rw other at h)))
  ]

  pub remove-inserts :
      (k : String) (cs m : List (String × V))
      → remove k (inserts cs m) ≡ inserts (remove k cs) (remove k m)
  unfolding remove
  remove-inserts k [] m = refl
  remove-inserts k ((j, v) ∷ cs) m = elim (Bool-cases (j == k)) [
    | inl same ↦ rw same (
        remove-inserts k cs (insert j v m)
        ∙ ap (inserts (remove k cs)) (remove-insert k j v m ∙ rw same refl))
    | inr other ↦ rw other (
        remove-inserts k cs (insert j v m)
        ∙ ap (inserts (remove k cs)) (remove-insert k j v m ∙ rw other refl))
  ]

  pub found-inserts :
      (k : String) (cs m : List (String × V))
      → found (lookup k (inserts cs m)) ≡ (contains k (keys cs) || found (lookup k m))
  unfolding contains
  found-inserts k [] m = refl
  found-inserts k ((j, v) ∷ cs) m =
      found-inserts k cs (insert j v m) ∙ ground (arith, lookup-insert j k v m)
