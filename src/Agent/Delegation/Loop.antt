-- ===== src/Agent/Delegation/Loop.antt =====
-- The loop of executeDelegatedTasks over the ordered tasks.
use mathlib.Core.List.{append_assoc, append-nil}
use openclawssy.Base.{
  ℕ, suc, ◌+◌, ◌≤◌, ◌≡◌, refl, sym, ap, subst, ◌∙◌, true, false, List, [], ◌∷◌, ◌++◌, length, Text,
  text_eq, ◌==◌, eq_iff, contains, if◌then◌else◌, Map, lookup, arith, Bool-cases, inl, inr, All,
  All-map, All-append,
}
use openclawssy.Agent.Order.{DecomposedTask, ids_of}
use openclawssy.Agent.Order.Pending.{DepsFirst}
use openclawssy.Agent.Delegation.{Env, Delegation, done, routed_task, delegate, delegate_all}
use openclawssy.Agent.Delegation.Results.{Succeeded, HasResult}
use openclawssy.Agent.Delegation.Step.{GivenFor, delegate-Step, routed_id, routed_deps}

-- How often a task was given to a sub-agent.
unfoldable pub attempts : Text → List DecomposedTask → ℕ
attempts id [] = 0
attempts id (g ∷ gs) = let rest = attempts id gs in if g.task_id == id then suc rest else rest

attempts-append :
    (id : Text) (xs ys : List DecomposedTask)
    → attempts id (xs ++ ys) ≡ attempts id xs + attempts id ys
unfolding attempts
attempts-append id [] ys = omega arith
attempts-append id (g ∷ xs) ys = ground (arith, attempts-append id xs ys)

attempts-length : (id : Text) (xs : List DecomposedTask) → attempts id xs ≤ length xs
unfolding attempts
attempts-length id [] = omega arith
attempts-length id (g ∷ xs) = ground (arith, attempts-length id xs)

attempts-other :
    (completed : Map Text Text) (task : DecomposedTask) (id : Text) (xs : List DecomposedTask)
    → (task.task_id == id) ≡ false
    → All (GivenFor completed task) xs
    → attempts id xs ≡ 0
unfolding attempts
attempts-other completed task id [] n a = refl
attempts-other completed task id (g ∷ xs) n a =
    ground (arith, n, ap (λ x. x == id) a.0.0, attempts-other completed task id xs n a.1)

before-apart :
    (before : List Text) (ts : List DecomposedTask) (d : Text)
    → DepsFirst before ts
    → contains before d ≡ true
    → contains (ids_of ts) d ≡ false
unfolding contains
before-apart before [] d h c = refl
before-apart before (t ∷ ts) d h c =
    ground (arith, c, h.1, eq_iff t.task_id d, before-apart (t.task_id ∷ before) ts d h.2)

-- What the loop over `tasks` does, after those of `before`.
pub record Loop (env : Env) (tasks : List DecomposedTask) (s : Delegation) : Type 0 where
  pub final : Delegation
  pub runs : delegate_all env tasks s ≡ done final
  pub all : All (λ t. HasResult final.completed t.task_id) tasks
  pub kept :
      (id : Text)
      → contains (ids_of tasks) id ≡ false
      → lookup id final.completed ≡ lookup id s.completed
  pub extra : List DecomposedTask
  pub asked : final.executed ≡ s.executed ++ extra
  pub ready : All (λ g. All (Succeeded final.completed) g.depends_on) extra
  pub twice : (id : Text) → attempts id extra ≤ 2
  pub outside : (id : Text) → contains (ids_of tasks) id ≡ false → attempts id extra ≡ 0

Succeeded-same :
    (m m' : Map Text Text) (d : Text) → lookup d m' ≡ lookup d m → Succeeded m d → Succeeded m' d
Succeeded-same m m' d e (result, r, f) = (result, e ∙ r, f)

HasResult-same :
    (m m' : Map Text Text) (d : Text) → lookup d m' ≡ lookup d m → HasResult m d → HasResult m' d
HasResult-same m m' d e h n = h (sym e ∙ n)

All-within :
    (P : Text → Type 0) (before deps : List Text)
    → ((x : Text) → contains before x ≡ true → P x)
    → All (λ d. contains before d ≡ true) deps
    → All P deps
All-within P before deps f a = All-map (λ d. contains before d ≡ true) P deps f a

-- Two facts on the same dependencies.
All-both :
    (P : Text → Type 0) (Q : Text → Type 0) (R : Text → Type 0) (xs : List Text)
    → ((x : Text) → P x → Q x → R x)
    → All P xs
    → All Q xs
    → All R xs
All-both P Q R [] f a b = tt
All-both P Q R (x ∷ xs) f a b = (f x a.0 b.0, All-both P Q R xs f a.1 b.1)

module _ (env : Env) where
  delegate_all-end : (s : Delegation) → delegate_all env [] s ≡ done s
  unfolding delegate_all
  delegate_all-end s = refl

  delegate_all-next :
      (t : DecomposedTask) (ts : List DecomposedTask) (s s' final : Delegation)
      → delegate env (routed_task env t) s ≡ done s'
      → delegate_all env ts s' ≡ done final
      → delegate_all env (t ∷ ts) s ≡ done final
  unfolding delegate_all
  delegate_all-next t ts s s' final e e' = rw (delegate_all, e) e'

  pub delegate_all-Loop :
      (before : List Text) (tasks : List DecomposedTask) (s : Delegation)
      → DepsFirst before tasks
      → ((x : Text) → contains before x ≡ true → HasResult s.completed x)
      → Loop env tasks s
  unfolding attempts contains
  delegate_all-Loop before [] s h have = record {
    final = s;
    runs = delegate_all-end s;
    all = tt;
    kept = λ id n. refl;
    extra = [];
    asked = sym (append-nil s.executed);
    ready = tt;
    twice = λ id. omega arith;
    outside = λ id n. refl;
  }
  delegate_all-Loop before (t ∷ ts) s h have =
      let u = routed_task env t in
      let deps : All (HasResult s.completed) u.depends_on =
        subst (All (HasResult s.completed)) (sym (routed_deps env t))
          (All-within (HasResult s.completed) before t.depends_on have h.0) in
      let st = delegate-Step env u s deps in
      let s' = st.final in
      let other : (id : Text)
          → (t.task_id == id) ≡ false
          → lookup id s'.completed ≡ lookup id s.completed =
        λ id n. st.others id (ap (λ x. x == id) (routed_id env t) ∙ n) in
      let own : HasResult s'.completed t.task_id =
        subst (HasResult s'.completed) (routed_id env t) st.own in
      let have' : (x : Text) → contains (t.task_id ∷ before) x ≡ true → HasResult s'.completed x =
        λ x c. elim (Bool-cases (t.task_id == x)) [
          | inl hit ↦ subst (HasResult s'.completed) ((eq_iff t.task_id x).0 hit) own
          | inr miss ↦
              HasResult-same s.completed s'.completed x (other x miss)
                (have x (ground (arith, c, miss)))
        ] in
      let rest = delegate_all-Loop (t.task_id ∷ before) ts s' h.2 have' in
      let apart : contains (ids_of ts) t.task_id ≡ false =
        before-apart (t.task_id ∷ before) ts t.task_id h.2
          (ground (arith, eq_iff t.task_id t.task_id)) in
      let keep : (d : Text)
          → contains before d ≡ true
          → Succeeded s.completed d
          → Succeeded rest.final.completed d =
        λ d c r.
          let n = before-apart before (t ∷ ts) d h c in
          Succeeded-same s.completed rest.final.completed d
            (rest.kept d (ground (arith, n)) ∙ other d (ground (arith, n))) r in
      let fine : (g : DecomposedTask)
          → GivenFor s.completed u g
          → All (Succeeded rest.final.completed) g.depends_on =
        λ g now. subst (All (Succeeded rest.final.completed)) (sym (now.1 ∙ routed_deps env t)) (
          All-both (λ d. contains before d ≡ true) (Succeeded s.completed)
            (Succeeded rest.final.completed) t.depends_on keep h.0
            (subst (All (Succeeded s.completed)) (routed_deps env t) now.2)) in
      let split : (id : Text)
          → attempts id (st.extra ++ rest.extra) ≡ attempts id st.extra + attempts id rest.extra =
        λ id. attempts-append id st.extra rest.extra in
      let none_of : (id : Text) → (t.task_id == id) ≡ false → attempts id st.extra ≡ 0 = λ id n.
        attempts-other s.completed u id st.extra (ap (λ x. x == id) (routed_id env t) ∙ n)
          st.given in
      record {
        final = rest.final;
        runs = delegate_all-next t ts s s' rest.final st.runs rest.runs;
        all = (
          HasResult-same s'.completed rest.final.completed t.task_id (rest.kept t.task_id apart)
              own,
          rest.all,
        );
        kept = λ id n. rest.kept id (ground (arith, n)) ∙ other id (ground (arith, n));
        extra = st.extra ++ rest.extra;
        asked =
            rest.asked
            ∙ ap (λ xs. xs ++ rest.extra) st.asked
            ∙ append_assoc s.executed st.extra rest.extra;
        ready =
            All-append (λ g. All (Succeeded rest.final.completed) g.depends_on) st.extra rest.extra
              (All-map (GivenFor s.completed u)
                (λ g. All (Succeeded rest.final.completed) g.depends_on) st.extra fine st.given)
              rest.ready;
        twice = λ id. elim (Bool-cases (t.task_id == id)) [
          | inl hit ↦ omega (
            arith,
            split id,
            attempts-length id st.extra,
            st.twice,
            rest.outside id (sym (ap (contains (ids_of ts)) ((eq_iff t.task_id id).0 hit)) ∙ apart),
          )
          | inr miss ↦ omega (arith, split id, none_of id miss, rest.twice id)
        ];
        outside = λ id n.
            omega (
              arith,
              split id,
              none_of id (ground (arith, n)),
              rest.outside id (ground (arith, n)),
            );
      }
