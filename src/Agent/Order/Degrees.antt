-- ===== src/Agent/Order/Degrees.antt =====
-- What the maps of topologicalSortTasks hold: each task and its dependencies by its id, and for each id
-- the tasks that depend on it.
use mathlib.Core.List.{Memᴰ}
use openclawssy.Base.{
  ℕ, suc, ◌+◌, ◌≤◌, ◌≡◌, refl, sym, ap, subst, ◌∙◌, true, false, some, List, [], ◌∷◌, ◌++◌, Text,
  text_eq, ◌==◌, eq_iff, contains, if◌then◌else◌, Map, lookup, insert, lookup-insert, arith,
  Bool-cases, inl, inr, NoRepeats,
}
use openclawssy.Agent.Order.{DecomposedTask, ids_of, fill, list_of, note_dependents, dependents_of}

-- How often an id stands in a list.
unfoldable pub occurrences : Text → List Text → ℕ
occurrences x [] = 0
occurrences x (y ∷ ys) = let rest = occurrences x ys in if y == x then suc rest else rest

pub occurrences-append :
    (x : Text) (xs ys : List Text) → occurrences x (xs ++ ys) ≡ occurrences x xs + occurrences x ys
unfolding occurrences
occurrences-append x [] ys = omega arith
occurrences-append x (z ∷ xs) ys = ground (arith, occurrences-append x xs ys)

pub occurrences-contains :
    (x : Text) (xs : List Text) → contains xs x ≡ false → occurrences x xs ≡ 0
unfolding occurrences contains
occurrences-contains x [] e = refl
occurrences-contains x (y ∷ xs) e = ground (arith, e, occurrences-contains x xs)

pub contains-occurrences : (x : Text) (xs : List Text) → contains xs x ≡ true → 1 ≤ occurrences x xs
unfolding occurrences contains
contains-occurrences x [] e = cc e
contains-occurrences x (y ∷ xs) e = ground (arith, e, contains-occurrences x xs)

module _ {ℓ} {V : Type ℓ} (value : DecomposedTask → V) where
  fill-other :
      (k : Text) (ts : List DecomposedTask) (m : Map Text V)
      → contains (ids_of ts) k ≡ false
      → lookup k (fill value ts m) ≡ lookup k m
  unfolding fill contains
  fill-other k [] m e = refl
  fill-other k (t ∷ ts) m e =
      fill-other k ts (insert t.task_id (value t) m) (ground (arith, e))
      ∙ ground (arith, e, lookup-insert t.task_id k (value t) m)

  -- With different ids, every task has its own value.
  pub lookup-fill :
      (ts : List DecomposedTask) (m : Map Text V) (u : DecomposedTask)
      → NoRepeats (ids_of ts)
      → Memᴰ u ts
      → lookup u.task_id (fill value ts m) ≡ some (value u)
  unfolding fill
  lookup-fill [] m u n h = elim h [ ]
  lookup-fill (t ∷ ts) m u n (Memᴰ.head e) = rw e (
      fill-other t.task_id ts (insert t.task_id (value t) m) n.0
      ∙ ground (arith, lookup-insert t.task_id t.task_id (value t) m, eq_iff t.task_id t.task_id))
  lookup-fill (t ∷ ts) m u n (Memᴰ.tail h) = lookup-fill ts (insert t.task_id (value t) m) u n.1 h

-- How often the tasks named `id` depend on `d`.
unfoldable pub needs : Text → Text → List DecomposedTask → ℕ
unfolding occurrences
needs id d [] = 0
needs id d (t ∷ ts) =
    let rest = needs id d ts in if t.task_id == id then occurrences d t.depends_on + rest else rest

occurrences-one : (x y : Text) → occurrences x (y ∷ []) ≡ (if y == x then 1 else 0)
unfolding occurrences
occurrences-one x y = refl

list_of-insert :
    (k j : Text) (v : List Text) (m : Map Text (List Text))
    → list_of (insert k v m) j ≡ (if k == j then v else list_of m j)
unfolding list_of
list_of-insert k j v m = ground (arith, lookup-insert k j v m)

-- One dependency more.
occurrences-insert :
    (x d id dep : Text) (m : Map Text (List Text))
    → occurrences x (list_of (insert dep (list_of m dep ++ id ∷ []) m) d)
      ≡ occurrences x (list_of m d) + (if dep == d then if id == x then 1 else 0 else 0)
occurrences-insert x d id dep m = elim (Bool-cases (dep == d)) [
  | inr miss ↦ rw (list_of-insert dep d (list_of m dep ++ id ∷ []) m, miss) (omega arith)
  | inl hit ↦
      rw (list_of-insert dep d (list_of m dep ++ id ∷ []) m, hit, sym ((eq_iff dep d).0 hit))
        (occurrences-append x (list_of m dep) (id ∷ [])
          ∙ ap (λ n. occurrences x (list_of m dep) + n) (occurrences-one x id))
]

occurrences-note_dependents :
    (x d id : Text) (deps : List Text) (m : Map Text (List Text))
    → occurrences x (list_of (note_dependents id deps m) d)
      ≡ occurrences x (list_of m d) + (if id == x then occurrences d deps else 0)
unfolding note_dependents occurrences
occurrences-note_dependents x d id [] m = ground arith
occurrences-note_dependents x d id (dep ∷ deps) m =
    occurrences-note_dependents x d id deps (insert dep (list_of m dep ++ id ∷ []) m)
    ∙ ground (arith, occurrences-insert x d id dep m)

pub occurrences-dependents_of :
    (x d : Text) (ts : List DecomposedTask) (m : Map Text (List Text))
    → occurrences x (list_of (dependents_of ts m) d) ≡ occurrences x (list_of m d) + needs x d ts
unfolding dependents_of needs
occurrences-dependents_of x d [] m = omega arith
occurrences-dependents_of x d (t ∷ ts) m = ground (
  arith,
  occurrences-dependents_of x d ts (note_dependents t.task_id t.depends_on m),
  occurrences-note_dependents x d t.task_id t.depends_on m,
)

pub needs-other :
    (id d : Text) (ts : List DecomposedTask) → contains (ids_of ts) id ≡ false → needs id d ts ≡ 0
unfolding needs contains
needs-other id d [] e = refl
needs-other id d (t ∷ ts) e = ground (arith, e, needs-other id d ts)

pub contains-ids_of :
    (u : DecomposedTask) (ts : List DecomposedTask)
    → Memᴰ u ts
    → contains (ids_of ts) u.task_id ≡ true
unfolding contains
contains-ids_of u [] h = elim h [ ]
contains-ids_of u (t ∷ ts) (Memᴰ.head e) =
    ground (arith, ap (λ x. x.task_id) e, eq_iff t.task_id u.task_id)
contains-ids_of u (t ∷ ts) (Memᴰ.tail h) = ground (arith, contains-ids_of u ts h)

-- With different ids, a task needs its own dependencies.
pub needs-own :
    (d : Text) (ts : List DecomposedTask) (u : DecomposedTask)
    → NoRepeats (ids_of ts)
    → Memᴰ u ts
    → needs u.task_id d ts ≡ occurrences d u.depends_on
unfolding needs
needs-own d [] u n h = elim h [ ]
needs-own d (t ∷ ts) u n (Memᴰ.head e) =
    subst (λ v. needs v.task_id d (t ∷ ts) ≡ occurrences d v.depends_on) (sym e)
      (ground (arith, needs-other t.task_id d ts n.0, eq_iff t.task_id t.task_id))
needs-own d (t ∷ ts) u n (Memᴰ.tail h) =
    ground (arith, needs-own d ts u n.1 h, n.0, contains-ids_of u ts h, eq_iff t.task_id u.task_id)
