-- ===== src/Agent/Order/Queue.antt =====
-- Sorting the queue neither adds nor loses an id.
use openclawssy.Base.{
  ℕ, zero, suc, ◌≡◌, refl, ap, ◌∙◌, ◌||◌, List, [], ◌∷◌, length, Text, text_eq, ◌==◌, contains, Map,
  arith, ltb_ℤ, Bool-cases, inl, inr,
}
use openclawssy.Agent.Order.{DecomposedTask, exchange, sort_rounds, sort_by_priority, task_of}

module _ (tasks : Map Text DecomposedTask) where
  contains-exchange :
      (x z : Text) (xs : List Text)
      → ((exchange tasks x xs).0 == z || contains (exchange tasks x xs).1 z)
        ≡ (x == z || contains xs z)
  unfolding exchange contains
  contains-exchange x z [] = refl
  contains-exchange x z (y ∷ ys) =
      elim (Bool-cases (ltb_ℤ (task_of tasks y).priority (task_of tasks x).priority)) [
        | inl less ↦ rw (exchange, less) (ground (arith, contains-exchange y z ys))
        | inr more ↦ rw (exchange, more) (ground (arith, contains-exchange x z ys))
      ]

  length-exchange : (x : Text) (xs : List Text) → length (exchange tasks x xs).1 ≡ length xs
  unfolding exchange
  length-exchange x [] = refl
  length-exchange x (y ∷ ys) =
      elim (Bool-cases (ltb_ℤ (task_of tasks y).priority (task_of tasks x).priority)) [
        | inl less ↦ rw (exchange, less) (ap suc (length-exchange y ys))
        | inr more ↦ rw (exchange, more) (ap suc (length-exchange x ys))
      ]

  contains-sort_rounds :
      (n : ℕ) (xs : List Text) (z : Text) → contains (sort_rounds tasks n xs) z ≡ contains xs z
  unfolding sort_rounds contains
  contains-sort_rounds zero xs z = refl
  contains-sort_rounds (suc n) [] z = refl
  contains-sort_rounds (suc n) (x ∷ xs) z =
      ground (arith, contains-exchange x z xs, contains-sort_rounds n (exchange tasks x xs).1 z)

  length-sort_rounds : (n : ℕ) (xs : List Text) → length (sort_rounds tasks n xs) ≡ length xs
  unfolding sort_rounds
  length-sort_rounds zero xs = refl
  length-sort_rounds (suc n) [] = refl
  length-sort_rounds (suc n) (x ∷ xs) =
      ap suc (length-sort_rounds n (exchange tasks x xs).1 ∙ length-exchange x xs)

  pub contains-sort_by_priority :
      (xs : List Text) (z : Text) → contains (sort_by_priority tasks xs) z ≡ contains xs z
  unfolding sort_by_priority
  contains-sort_by_priority xs z = contains-sort_rounds (length xs) xs z

  pub length-sort_by_priority : (xs : List Text) → length (sort_by_priority tasks xs) ≡ length xs
  unfolding sort_by_priority
  length-sort_by_priority xs = length-sort_rounds (length xs) xs
