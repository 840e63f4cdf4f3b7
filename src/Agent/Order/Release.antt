-- ===== src/Agent/Order/Release.antt =====
-- What a visit does to the degrees and the queue.
use openclawssy.Base.{
  ℕ, zero, suc, ◌+◌, ◌-◌, ◌≤◌, ◌≡◌, refl, ap, ◌∙◌, true, false, ◌||◌, ◌&&◌, List, [], ◌∷◌, ◌++◌,
  length, length-append, Text, text_eq, ◌==◌, eq_iff, contains, if◌then◌else◌, Map, insert,
  lookup-insert, arith, ℤ, pos, Bool-cases, inl, inr, leb, nat_beq,
}
use openclawssy.Agent.Order.{degree_of, release, pred_ℤ, is_zero}
use openclawssy.Agent.Order.Degrees.{occurrences}

pub degree_of-insert :
    (k j : Text) (n : ℤ) (m : Map Text ℤ)
    → degree_of (insert k n m) j ≡ (if k == j then n else degree_of m j)
unfolding degree_of
degree_of-insert k j n m = ground (arith, lookup-insert k j n m)

pub contains-snoc :
    (xs : List Text) (y z : Text) → contains (xs ++ y ∷ []) z ≡ (contains xs z || y == z)
unfolding contains
contains-snoc [] y z = ground arith
contains-snoc (x ∷ xs) y z = ground (arith, contains-snoc xs y z)

lowered : Text → Map Text ℤ → Map Text ℤ
lowered id m = insert id (pred_ℤ (degree_of m id)) m

lowered-hit :
    (x id : Text) (n : ℕ) (m : Map Text ℤ)
    → degree_of m x ≡ pos (suc n)
    → (id == x) ≡ true
    → degree_of (lowered id m) x ≡ pos n
unfolding lowered
lowered-hit x id n m e hit =
    degree_of-insert id x (pred_ℤ (degree_of m id)) m ∙ rw (hit, (eq_iff id x).0 hit, e) refl

lowered-miss :
    (x id : Text) (m : Map Text ℤ) → (id == x) ≡ false → degree_of (lowered id m) x ≡ degree_of m x
unfolding lowered
lowered-miss x id m miss = degree_of-insert id x (pred_ℤ (degree_of m id)) m ∙ rw miss refl

queued : Text → Map Text ℤ → List Text → List Text
queued id m queue = if is_zero (pred_ℤ (degree_of m id)) then queue ++ id ∷ [] else queue

queued-miss :
    (x id : Text) (m : Map Text ℤ) (queue : List Text)
    → (id == x) ≡ false
    → contains (queued id m queue) x ≡ contains queue x
unfolding queued
queued-miss x id m queue miss = ground (arith, miss, contains-snoc queue id x)

queued-zero :
    (x id : Text) (m : Map Text ℤ) (queue : List Text)
    → (id == x) ≡ true
    → degree_of m x ≡ pos 1
    → contains (queued id m queue) x ≡ true
unfolding queued
queued-zero x id m queue hit e =
    rw ((eq_iff id x).0 hit, e) (ground (arith, contains-snoc queue x x, eq_iff x x))

queued-more :
    (x id : Text) (n : ℕ) (m : Map Text ℤ) (queue : List Text)
    → (id == x) ≡ true
    → degree_of m x ≡ pos (suc (suc n))
    → queued id m queue ≡ queue
unfolding queued
queued-more x id n m queue hit e = rw ((eq_iff id x).0 hit, e) refl

-- Each dependent falls by as often as it stands in the list.
pub degree_of-release :
    (x : Text) (n : ℕ) (ids : List Text) (m : Map Text ℤ) (queue : List Text)
    → degree_of m x ≡ pos n
    → occurrences x ids ≤ n
    → degree_of (release ids m queue).0 x ≡ pos (n - occurrences x ids)
unfolding release occurrences lowered queued
degree_of-release x n [] m queue e h = e ∙ ap pos (omega arith)
degree_of-release x zero (id ∷ ids) m queue e h = elim (Bool-cases (id == x)) [
  | inr miss ↦
      degree_of-release x zero ids (lowered id m) (queued id m queue) (lowered-miss x id m miss ∙ e)
        (ground (arith, h, miss))
      ∙ ap pos (ground (arith, miss))
  | inl hit ↦ absurd (ground (arith, h, hit))
]
degree_of-release x (suc n) (id ∷ ids) m queue e h = elim (Bool-cases (id == x)) [
  | inr miss ↦
      degree_of-release x (suc n) ids (lowered id m) (queued id m queue)
        (lowered-miss x id m miss ∙ e) (ground (arith, h, miss))
      ∙ ap pos (ground (arith, miss))
  | inl hit ↦
      degree_of-release x n ids (lowered id m) (queued id m queue) (lowered-hit x id n m e hit)
        (ground (arith, h, hit))
      ∙ ap pos (ground (arith, hit))
]

-- What is in the queue afterwards: what was there, and the dependents that came to zero.
pub contains-release :
    (x : Text) (n : ℕ) (ids : List Text) (m : Map Text ℤ) (queue : List Text)
    → degree_of m x ≡ pos n
    → occurrences x ids ≤ n
    → contains (release ids m queue).1 x
      ≡ (contains queue x || (leb 1 (occurrences x ids) && nat_beq n (occurrences x ids)))
unfolding release occurrences lowered queued
contains-release x n [] m queue e h = ground arith
contains-release x zero (id ∷ ids) m queue e h = elim (Bool-cases (id == x)) [
  | inl hit ↦ absurd (ground (arith, h, hit))
  | inr miss ↦
      contains-release x zero ids (lowered id m) (queued id m queue) (lowered-miss x id m miss ∙ e)
        (ground (arith, h, miss))
      ∙ ground (arith, miss, queued-miss x id m queue miss)
]
contains-release x (suc zero) (id ∷ ids) m queue e h = elim (Bool-cases (id == x)) [
  | inl hit ↦
      contains-release x zero ids (lowered id m) (queued id m queue) (lowered-hit x id 0 m e hit)
        (ground (arith, h, hit))
      ∙ ground (arith, h, hit, queued-zero x id m queue hit e)
  | inr miss ↦
      contains-release x 1 ids (lowered id m) (queued id m queue) (lowered-miss x id m miss ∙ e)
        (ground (arith, h, miss))
      ∙ ground (arith, miss, queued-miss x id m queue miss)
]
contains-release x (suc (suc n)) (id ∷ ids) m queue e h = elim (Bool-cases (id == x)) [
  | inl hit ↦
      contains-release x (suc n) ids (lowered id m) (queued id m queue)
        (lowered-hit x id (suc n) m e hit) (ground (arith, h, hit))
      ∙ ground (arith, h, hit, ap (λ q. contains q x) (queued-more x id n m queue hit e))
  | inr miss ↦
      contains-release x (suc (suc n)) ids (lowered id m) (queued id m queue)
        (lowered-miss x id m miss ∙ e) (ground (arith, h, miss))
      ∙ ground (arith, miss, queued-miss x id m queue miss)
]

length-queued :
    (id : Text) (m : Map Text ℤ) (queue : List Text)
    → length (queued id m queue) ≤ suc (length queue)
unfolding queued
length-queued id m queue = elim (Bool-cases (is_zero (pred_ℤ (degree_of m id)))) [
  | inl hit ↦ rw (queued, hit) (omega (arith, length-append queue (id ∷ [])))
  | inr miss ↦ rw (queued, miss) (omega arith)
]

pub length-release :
    (ids : List Text) (m : Map Text ℤ) (queue : List Text)
    → length (release ids m queue).1 ≤ length queue + length ids
unfolding release queued lowered
length-release [] m queue = omega arith
length-release (id ∷ ids) m queue =
    omega (arith, length-release ids (lowered id m) (queued id m queue), length-queued id m queue)

-- An id that is no dependent stays out of the queue.
pub contains-release_other :
    (x : Text) (ids : List Text) (m : Map Text ℤ) (queue : List Text)
    → occurrences x ids ≡ 0
    → contains (release ids m queue).1 x ≡ contains queue x
unfolding release queued lowered occurrences
contains-release_other x [] m queue h = refl
contains-release_other x (id ∷ ids) m queue h = elim (Bool-cases (id == x)) [
  | inl hit ↦ absurd (ground (arith, h, hit))
  | inr miss ↦
      contains-release_other x ids (lowered id m) (queued id m queue) (ground (arith, h, miss))
      ∙ queued-miss x id m queue miss
]
