-- ===== src/Common/Dict.antt =====
-- Python's dictionaries and sets over keys that `==` compares: association lists and lists with one
-- entry for each key. No code modelled here reads the order of the entries, but through `sorted`,
-- `values` and `items`, which say so where they stand.
use Prim.Native.Nat.{◌+◌, ◌≤◌}
use mathlib.Core.Path.{◌≡◌, refl, subst}
use mathlib.Core.Logic.{◌⊎◌, inl, inr}
use mathlib.Core.Bool.{Bool, true, false, ◌||◌}
use mathlib.Core.Option.{Option, none, some}
use mathlib.Core.List.{List, [], ◌∷◌}
use native.Mathlib.Omega.{arith}
use aristote_dispatcher.Common.Tests.{Eq, ◌==◌, if◌then◌else◌, Bool-cases}
use aristote_dispatcher.Common.Lists.{length, All}

module _ {κ} {V : Type κ} where
  abbrev pub or_else : Option V → Option V → Option V
  or_else (some v) o = some v
  or_else none o = o

  abbrev pub or_default : Option V → V → V
  or_default (some v) d = v
  or_default none d = d

module _ {ℓ κ} {K : Type ℓ} {V : Type κ} where
  pair_path : {j k : K} {v w : V} → j ≡ k → v ≡ w → Path (K × V) (j, v) (k, w)
  pair_path p q = λ i. (p i, q i)

  abbrev pub keys : List (K × V) → List K
  keys [] = []
  keys ((k, v) ∷ m) = k ∷ keys m

  abbrev pub values : List (K × V) → List V
  values [] = []
  values ((k, v) ∷ m) = v ∷ values m

module _ {ℓ κ} {K : Type ℓ} {V : Type κ} ⦃e : Eq K⦄ where
  -- `d.get(k)`
  unfoldable pub lookup : K → List (K × V) → Option V
  lookup k [] = none
  lookup k ((j, v) ∷ m) = if j == k then some v else lookup k m

  -- `d.get(k, default)`
  unfoldable pub get_or : K → V → List (K × V) → V
  get_or k d m = or_default (lookup k m) d

  -- `d.pop(k, None)`, but for the value
  unfoldable pub remove : K → List (K × V) → List (K × V)
  remove k [] = []
  remove k ((j, v) ∷ m) = let rest = remove k m in if j == k then rest else (j, v) ∷ rest

  -- `d[k] = v`
  unfoldable pub insert : K → V → List (K × V) → List (K × V)
  insert key value [] = (key, value) ∷ []
  insert key value (entry ∷ m) =
      if entry.0 == key then (key, value) ∷ m else entry ∷ insert key value m

  -- `d.update(n)`
  unfoldable pub update : List (K × V) → List (K × V) → List (K × V)
  update m [] = m
  update m ((k, v) ∷ n) = insert k v (update m n)

  pub lookup-insert :
      (written read : K) (value : V) (m : List (K × V))
      → lookup read (insert written value m)
        ≡ (if written == read then some value else lookup read m)
  unfolding lookup insert
  lookup-insert written read value [] = refl
  lookup-insert written read value (entry ∷ m) = ground (
    arith,
    e.decides entry.0 written,
    e.decides entry.0 read,
    e.decides written read,
    lookup-insert written read value m,
  )

  pub lookup-remove :
      (k j : K) (m : List (K × V)) → lookup j (remove k m) ≡ (if k == j then none else lookup j m)
  unfolding lookup remove
  lookup-remove k j [] = ground arith
  lookup-remove k j ((i, w) ∷ m) =
      ground (arith, e.decides k j, e.decides i k, e.decides i j, lookup-remove k j m)

  pub lookup-insert_self : (k : K) (v : V) (m : List (K × V)) → lookup k (insert k v m) ≡ some v
  lookup-insert_self k v m = ground (arith, lookup-insert k k v m, e.decides k k)

  -- What is found after a write is what was written, or was there before.
  pub lookup-insert_cases :
      (k j : K) (v w : V) (m : List (K × V))
      → lookup j (insert k v m) ≡ some w
      → ((k ≡ j) × (v ≡ w)) ⊎ (lookup j m ≡ some w)
  lookup-insert_cases k j v w m h = elim (Bool-cases (k == j)) [
    | inl same ↦ inl ((e.decides k j).0 same, ground (arith, lookup-insert k j v m))
    | inr other ↦ inr (ground (arith, lookup-insert k j v m))
  ]

  -- A property of every entry survives the change of one.
  pub All-insert {μ} :
      (P : K × V → Type μ) (k : K) (v : V) (m : List (K × V))
      → P (k, v)
      → All P m
      → All P (insert k v m)
  unfolding insert
  All-insert P k v [] h a = (h, tt)
  All-insert P k v ((j, w) ∷ m) h a = elim (Bool-cases (j == k)) [
    | inl same ↦ rw same (h, a.1)
    | inr other ↦ rw other (a.0, All-insert P k v m h a.1)
  ]

  pub All-lookup {μ} :
      (P : K × V → Type μ) (k : K) (v : V) (m : List (K × V))
      → All P m
      → lookup k m ≡ some v
      → P (k, v)
  unfolding lookup
  All-lookup P k v [] a h = cc
  All-lookup P k v ((j, w) ∷ m) a h = elim (Bool-cases (j == k)) [
    | inl same ↦
        let value : w ≡ v = ground arith in subst P (pair_path ((e.decides j k).0 same) value) a.0
    | inr other ↦ All-lookup P k v m a.1 (rw other at h)
  ]

  pub lookup-update :
      (j : K) (m n : List (K × V)) → lookup j (update m n) ≡ or_else (lookup j n) (lookup j m)
  unfolding lookup update
  lookup-update j m [] = refl
  lookup-update j m ((k, v) ∷ n) =
      ground (arith, lookup-insert k j v (update m n), lookup-update j m n)

  keys-insert_self :
      (k : K) (v w : V) (m : List (K × V)) → lookup k m ≡ some w → keys (insert k v m) ≡ keys m
  unfolding lookup insert
  keys-insert_self k v w [] h = cc
  keys-insert_self k v w ((j, u) ∷ m) h = ground (arith, e.decides j k, keys-insert_self k v w m)

module _ {ℓ} {A : Type ℓ} ⦃e : Eq A⦄ where
  -- `x in s`
  unfoldable pub contains : A → List A → Bool
  contains a [] = false
  contains a (x ∷ xs) = x == a || contains a xs

  -- `s.add(x)`
  unfoldable pub add : A → List A → List A
  add a xs = if contains a xs then xs else a ∷ xs

  -- `s.discard(x)`
  unfoldable pub discard : A → List A → List A
  discard a [] = []
  discard a (x ∷ xs) = let rest = discard a xs in if x == a then rest else x ∷ rest

  -- Each element stands once.
  abbrev pub IsDistinct : List A → Type 0
  IsDistinct [] = Unit
  IsDistinct (x ∷ xs) = (contains x xs ≡ false) × IsDistinct xs

  pub length-add : (a : A) (xs : List A) → length (add a xs) ≤ length xs + 1
  unfolding add
  length-add a xs = ground arith

  pub length-discard : (a : A) (xs : List A) → length (discard a xs) ≤ length xs
  unfolding discard
  length-discard a [] = omega arith
  length-discard a (x ∷ xs) = ground (arith, length-discard a xs)

  pub contains-discard :
      (a b : A) (xs : List A)
      → contains b (discard a xs) ≡ (if a == b then false else contains b xs)
  unfolding contains discard
  contains-discard a b [] = ground arith
  contains-discard a b (x ∷ xs) =
      ground (arith, e.decides x a, e.decides x b, e.decides a b, contains-discard a b xs)

  pub contains-add : (a b : A) (xs : List A) → contains b (add a xs) ≡ (a == b || contains b xs)
  unfolding contains add
  contains-add a b xs = ground (arith, e.decides a b)

  pub contains-add_cases :
      (a b : A) (xs : List A) → contains b (add a xs) ≡ true → (a ≡ b) ⊎ (contains b xs ≡ true)
  contains-add_cases a b xs h = elim (Bool-cases (a == b)) [
    | inl same ↦ inl ((e.decides a b).0 same)
    | inr other ↦ inr (ground (arith, contains-add a b xs))
  ]

  pub contains_of_contains-discard :
      (a b : A) (xs : List A) → contains b (discard a xs) ≡ true → contains b xs ≡ true
  contains_of_contains-discard a b xs h = ground (arith, contains-discard a b xs)

  add-IsDistinct : (a : A) (xs : List A) → IsDistinct xs → IsDistinct (add a xs)
  unfolding add
  add-IsDistinct a xs h = ground arith

  discard-IsDistinct : (a : A) (xs : List A) → IsDistinct xs → IsDistinct (discard a xs)
  unfolding discard
  discard-IsDistinct a [] h = tt
  discard-IsDistinct a (x ∷ xs) h =
      ground (arith, contains-discard a x xs, discard-IsDistinct a xs h.1)
