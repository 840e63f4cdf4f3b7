-- ===== src/Agent/Order/Pending.antt =====
-- What topologicalSortTasks counts: the dependencies that are still pending, the order of a result, and
-- the queue at the start.
use mathlib.Core.List.{Memᴰ}
use openclawssy.Base.{
  ℕ, zero, suc, ◌+◌, ◌≡◌, refl, sym, ap, subst, ◌∙◌, Bool, true, false, ◌||◌, ◌&&◌, List, [], ◌∷◌,
  ◌++◌, length, Text, text_eq, ◌==◌, eq_iff, contains, if◌then◌else◌, Map, arith, ℤ, pos,
  Bool-cases, inl, inr, ◌⊎◌, All, All-map,
}
use openclawssy.Agent.Order.{DecomposedTask, ids_of, initial_queue, degree_of, is_zero}
use openclawssy.Agent.Order.Degrees.{occurrences}

-- How many dependencies are not visited yet.
unfoldable pub pending : List Text → List Text → ℕ
pending visited [] = 0
pending visited (d ∷ deps) =
    let rest = pending visited deps in if contains visited d then rest else suc rest

pub pending-visit :
    (id : Text) (visited deps : List Text)
    → contains visited id ≡ false
    → pending (id ∷ visited) deps + occurrences id deps ≡ pending visited deps
unfolding pending contains occurrences
pending-visit id visited [] n = refl
pending-visit id visited (d ∷ deps) n =
    ground (arith, n, pending-visit id visited deps n, eq_iff id d, eq_iff d id)

pub pending_nil : (deps : List Text) → pending [] deps ≡ length deps
unfolding pending contains
pending_nil [] = refl
pending_nil (d ∷ deps) = ap suc (pending_nil deps)

pub pending-All :
    (visited deps : List Text)
    → pending visited deps ≡ 0
    → All (λ d. contains visited d ≡ true) deps
unfolding pending
pending-All visited [] e = tt
pending-All visited (d ∷ deps) e = (ground (arith, e), pending-All visited deps (ground (arith, e)))

pub All-pending :
    (visited deps : List Text)
    → All (λ d. contains visited d ≡ true) deps
    → pending visited deps ≡ 0
unfolding pending
All-pending visited [] a = refl
All-pending visited (d ∷ deps) a = ground (arith, a.0, All-pending visited deps a.1)

-- Each task comes once, after the tasks that it depends on; `seen` are the ids before.
abbrev pub DepsFirst : List Text → List DecomposedTask → Type 0
DepsFirst seen [] = Unit
DepsFirst seen (t ∷ ts) =
    All (λ d. contains seen d ≡ true) t.depends_on
    × (contains seen t.task_id ≡ false)
    × DepsFirst (t.task_id ∷ seen) ts

pub DepsFirst-snoc :
    (seen : List Text) (ts : List DecomposedTask) (u : DecomposedTask)
    → DepsFirst seen ts
    → All (λ d. (contains seen d || contains (ids_of ts) d) ≡ true) u.depends_on
    → (contains seen u.task_id || contains (ids_of ts) u.task_id) ≡ false
    → DepsFirst seen (ts ++ u ∷ [])
unfolding contains
DepsFirst-snoc seen [] u h deps n = (
  All-map (λ d. (contains seen d || false) ≡ true) (λ d. contains seen d ≡ true) u.depends_on
      (λ d e. ground (arith, e)) deps,
  ground (arith, n),
  tt,
)
DepsFirst-snoc seen (t ∷ ts) u h deps n = (
  h.0,
  h.1,
  DepsFirst-snoc (t.task_id ∷ seen) ts u h.2
      (All-map (λ d. (contains seen d || (t.task_id == d || contains (ids_of ts) d)) ≡ true)
        (λ d. ((t.task_id == d || contains seen d) || contains (ids_of ts) d) ≡ true) u.depends_on
        (λ d e. ground (arith, e)) deps)
      (ground (arith, n)),
)

-- A task by its id.
pub ids_of-Mem :
    (x : Text) (ts : List DecomposedTask)
    → contains (ids_of ts) x ≡ true
    → (u : DecomposedTask) × Memᴰ u ts × (u.task_id ≡ x)
unfolding contains
ids_of-Mem x [] e = absurd (cc e)
ids_of-Mem x (t ∷ ts) e = elim (Bool-cases (t.task_id == x)) [
  | inl hit ↦ (t, Memᴰ.head refl, (eq_iff t.task_id x).0 hit)
  | inr miss ↦ let (u, m, i) = ids_of-Mem x ts (ground (arith, e, miss)) in (u, Memᴰ.tail m, i)
]

pub contains-ids_of_snoc :
    (ts : List DecomposedTask) (u : DecomposedTask) (x : Text)
    → contains (ids_of (ts ++ u ∷ [])) x ≡ (contains (ids_of ts) x || u.task_id == x)
unfolding contains
contains-ids_of_snoc [] u x = ground arith
contains-ids_of_snoc (t ∷ ts) u x = ground (arith, contains-ids_of_snoc ts u x)

pub Mem-snoc :
    (r : DecomposedTask) (ts : List DecomposedTask) (u : DecomposedTask)
    → Memᴰ r (ts ++ u ∷ [])
    → Memᴰ r ts ⊎ (r ≡ u)
Mem-snoc r [] u (Memᴰ.head e) = inr e
Mem-snoc r [] u (Memᴰ.tail h) = elim h [ ]
Mem-snoc r (t ∷ ts) u (Memᴰ.head e) = inl (Memᴰ.head e)
Mem-snoc r (t ∷ ts) u (Memᴰ.tail h) = elim (Mem-snoc r ts u h) [
  | inl old ↦ inl (Memᴰ.tail old)
  | inr same ↦ inr same
]

pub contains-initial_cons :
    (x : Text) (t : DecomposedTask) (ts : List DecomposedTask) (degrees : Map Text ℤ)
    → contains (initial_queue (t ∷ ts) degrees) x ≡ (
        (is_zero (degree_of degrees t.task_id) && t.task_id == x)
        || contains (initial_queue ts degrees) x)
unfolding initial_queue contains
contains-initial_cons x t ts degrees = elim (Bool-cases (is_zero (degree_of degrees t.task_id))) [
  | inl z ↦ rw (initial_queue, z) refl
  | inr n ↦ rw (initial_queue, n) refl
]

both : (t x : Text) (z c : Bool) → c ≡ false → ((z && t == x) || c) ≡ true → (t ≡ x) × (z ≡ true)
both t x z c n e = ground (arith, eq_iff t x, n, e)

head_zero : (x : Text) (z c : Bool) → z ≡ true → ((z && x == x) || c) ≡ true
head_zero x z c e = ground (arith, eq_iff x x, e)

later_zero : (b c : Bool) → c ≡ true → (b || c) ≡ true
later_zero b c e = ground (arith, e)

pub initial_queue-Mem :
    (x : Text) (ts : List DecomposedTask) (degrees : Map Text ℤ)
    → contains (initial_queue ts degrees) x ≡ true
    → (u : DecomposedTask) × Memᴰ u ts
      × (u.task_id ≡ x)
      × (is_zero (degree_of degrees u.task_id) ≡ true)
unfolding initial_queue contains
initial_queue-Mem x [] degrees e = absurd (cc e)
initial_queue-Mem x (t ∷ ts) degrees e =
    let e' = sym (contains-initial_cons x t ts degrees) ∙ e in
    elim (Bool-cases (contains (initial_queue ts degrees) x)) [
      | inl later ↦
          let (u, m, i, z) = initial_queue-Mem x ts degrees later in (u, Memᴰ.tail m, i, z)
      | inr first ↦
          (let (i, z) =
              both t.task_id x (is_zero (degree_of degrees t.task_id))
                (contains (initial_queue ts degrees) x) first e' in
            (t, Memᴰ.head refl, i, z))
    ]

pub contains-initial_queue :
    (u : DecomposedTask) (ts : List DecomposedTask) (degrees : Map Text ℤ)
    → Memᴰ u ts
    → is_zero (degree_of degrees u.task_id) ≡ true
    → contains (initial_queue ts degrees) u.task_id ≡ true
contains-initial_queue u [] degrees m z = elim m [ ]
contains-initial_queue u (t ∷ ts) degrees (Memᴰ.head e) z =
    subst (λ v. contains (initial_queue (v ∷ ts) degrees) u.task_id ≡ true) e
      (contains-initial_cons u.task_id u ts degrees
        ∙ head_zero u.task_id (is_zero (degree_of degrees u.task_id))
            (contains (initial_queue ts degrees) u.task_id) z)
contains-initial_queue u (t ∷ ts) degrees (Memᴰ.tail m) z =
    contains-initial_cons u.task_id t ts degrees
    ∙ later_zero (is_zero (degree_of degrees t.task_id) && t.task_id == u.task_id)
        (contains (initial_queue ts degrees) u.task_id) (contains-initial_queue u ts degrees m z)

pub pos_zero : (n : ℕ) → is_zero (pos n) ≡ true → n ≡ 0
pos_zero zero e = refl
pos_zero (suc n) e = absurd (cc e)
