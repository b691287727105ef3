-- ===== src/Consumer/Strategy/Tracker/Ring.antt =====
-- The slots of a window in the order in which they were written, the oldest first.
use native.Mathlib.Nat.{mod-eq_of_lt, mod_self}
use aristote_dispatcher.Common.{
  append_assoc, append_nil, replicate, ◌%◌, ltb, ltb→lt, Bool-cases, inl, inr, length-set, ℕ, zero,
  suc, ◌+◌, ◌<◌, ◌≡◌, refl, sym, ap, ◌∙◌, some, List, [], ◌∷◌, ◌++◌, arith, length, get_elem?, set,
  drop, take,
}

module _ {ℓ} {A : Type ℓ} where
  abbrev pub from_slot : ℕ → List A → List A
  from_slot i xs = drop i xs ++ take i xs

  drop_found :
      (xs : List A) (i : ℕ) (x : A) → get_elem? xs i ≡ some x → drop i xs ≡ x ∷ drop (suc i) xs
  drop_found [] i x h = cc
  drop_found (y ∷ xs) zero x h = let same : y ≡ x = cc in ap (λ z. z ∷ xs) same
  drop_found (y ∷ xs) (suc i) x h = drop_found xs i x h

  drop-set : (xs : List A) (i : ℕ) (y : A) → drop (suc i) (set xs i y) ≡ drop (suc i) xs
  drop-set [] i y = refl
  drop-set (x ∷ xs) zero y = refl
  drop-set (x ∷ xs) (suc i) y = drop-set xs i y

  take-set :
      (xs : List A) (i : ℕ) (y : A)
      → i < length xs
      → take (suc i) (set xs i y) ≡ take i xs ++ y ∷ []
  take-set [] i y h = absurd (omega arith)
  take-set (x ∷ xs) zero y h = refl
  take-set (x ∷ xs) (suc i) y h = ap (λ t. x ∷ t) (take-set xs i y (omega arith))

  drop_all : (xs : List A) → drop (length xs) xs ≡ []
  drop_all [] = refl
  drop_all (x ∷ xs) = drop_all xs

  take_all : (xs : List A) → take (length xs) xs ≡ xs
  take_all [] = refl
  take_all (x ∷ xs) = ap (λ t. x ∷ t) (take_all xs)

  -- The slot of the index is the oldest.
  pub from_slot_found :
      (xs : List A) (i : ℕ) (x : A)
      → get_elem? xs i ≡ some x
      → from_slot i xs ≡ x ∷ drop (suc i) xs ++ take i xs
  from_slot_found xs i x h = ap (λ t. t ++ take i xs) (drop_found xs i x h)

  -- Written anew, and with the index one further, it is the newest.
  from_slot-set :
      (xs : List A) (i : ℕ) (y : A)
      → i < length xs
      → from_slot (suc i) (set xs i y) ≡ (drop (suc i) xs ++ take i xs) ++ y ∷ []
  from_slot-set xs i y h =
      rw (drop-set xs i y, take-set xs i y h) (append_assoc (drop (suc i) xs) (take i xs) (y ∷ []))

  -- The index that has gone through all slots is again the first one.
  from_slot_all : (xs : List A) → from_slot (length xs) xs ≡ from_slot 0 xs
  from_slot_all xs = rw (drop_all xs, take_all xs) (sym (append_nil xs))

  pub set_found : (xs : List A) (i : ℕ) (x : A) → get_elem? xs i ≡ some x → set xs i x ≡ xs
  set_found [] i x h = refl
  set_found (y ∷ xs) zero x h = let same : y ≡ x = cc in ap (λ z. z ∷ xs) (sym same)
  set_found (y ∷ xs) (suc i) x h = ap (λ t. y ∷ t) (set_found xs i x h)

  -- The index goes round at the number of slots.
  pub from_slot-set_next :
      (count : ℕ) (xs : List A) (i : ℕ) (y : A)
      → length xs ≡ count
      → i < count
      → from_slot ((i + 1) % count) (set xs i y) ≡ (drop (suc i) xs ++ take i xs) ++ y ∷ []
  from_slot-set_next count xs i y full h = elim (Bool-cases (ltb (i + 1) count)) [
    | inl inside ↦
        let same : (i + 1) % count ≡ suc i =
          mod-eq_of_lt (ltb→lt (i + 1) count inside) ∙ omega arith in
        rw same (from_slot-set xs i y (omega arith))
    | inr last ↦
        let ends : suc i ≡ count = ground arith in
        let whole : suc i ≡ length (set xs i y) = omega (arith, length-set xs i y) in
        let same : (i + 1) % count ≡ 0 = ap (λ n. n % count) (omega arith) ∙ mod_self count in
        ap (λ n. from_slot n (set xs i y)) same
        ∙ sym (from_slot_all (set xs i y))
        ∙ ap (λ n. from_slot n (set xs i y)) (sym whole)
        ∙ from_slot-set xs i y (omega arith)
  ]

pub drop-append {ℓ} : {A : Type ℓ} (xs ys : List A) (n : ℕ) → length xs ≡ n → drop n (xs ++ ys) ≡ ys
drop-append [] ys zero h = refl
drop-append [] ys (suc n) h = absurd (omega arith)
drop-append (x ∷ xs) ys zero h = absurd (omega arith)
drop-append (x ∷ xs) ys (suc n) h = drop-append xs ys n (omega arith)

pub drop-replicate {ℓ} :
    {A : Type ℓ} (a : A) (ys : List A) (n m : ℕ)
    → n < m
    → (rest : List A) × (drop n (replicate m a ++ ys) ≡ a ∷ rest)
drop-replicate a ys n zero h = absurd (omega arith)
drop-replicate a ys zero (suc m) h = (replicate m a ++ ys, refl)
drop-replicate a ys (suc n) (suc m) h = drop-replicate a ys n m (omega arith)
