-- ===== src/Agent/Calls/Steps.antt =====
-- What one call of executeTools may do, as a relation.
use mathlib.Core.Option.{some_inj}
use openclawssy.Base.{
  ℕ, suc, ◌≡◌, refl, sym, ap, subst, ◌∙◌, ◌≤◌, true, false, Option, none, some, List, [], ◌++◌, ◌∷◌,
  Text, text_eq, ◌==◌, if◌then◌else◌, Map, lookup, arith, Option-cases, Bool-cases, inl, inr, codes,
  eq_iff, lookup-insert, ltb,
}
use openclawssy.Agent.Outcomes.{Outcomes}
use openclawssy.Agent.Calls.Keys.{ToolCallRequest, one_shot_mutation_repetition_key}
use openclawssy.Agent.Calls.Caps.{tool_call_cache_key}
use openclawssy.Agent.Calls.{
  Calls, Env, Progress, ToolCallResult, count_of, bumped, answer, perform, creation_check, refused,
  no_progress, create_guard, from_cache, held_to, repetition_guard, is_done, handle, new_calls,
  admitted, execute_tools, merged,
}
use openclawssy.Agent.Calls.Texts.{
  extract_agent_id_from_args, one_shot_error, repetition_error, unique_tool_call_id,
}

abbrev pub with_counts : Calls → Map Text ℕ → Calls
with_counts s m = record s { repetitions = m }

-- Counters never fall.
abbrev pub Rises : Map Text ℕ → Map Text ℕ → Type 0
Rises m m' = (key : Text) → count_of key m ≤ count_of key m'

abbrev pub one_shot_of : Env → ToolCallRequest → Option Text
one_shot_of env call = one_shot_mutation_repetition_key env.lib call.name call.arguments

-- The counters stand for the call: those of the key that the call is held to were raised, and are not
-- over the cap.
abbrev pub Allowed : Env → ToolCallRequest → Calls → Map Text ℕ → Type 0
Allowed env call s m =
    (key : Text) (limit : ℕ)
    → held_to env call (one_shot_of env call) ≡ some (key, limit)
    → (suc (count_of key s.repetitions) ≤ count_of key m)
      × (suc (count_of key s.repetitions) ≤ limit)

-- The call is answered without the executor, or goes to the executor when nothing forbids it.
pub data Handled (env : Env) (call : ToolCallRequest) (s : Calls) : Calls × Progress → Type 0 where
  answered :
      (r : ToolCallResult) (m : Map Text ℕ) (p : Progress)
      → Rises s.repetitions m
      → Handled env call s (answer env call r (with_counts s m), p)
  performed :
      (m : Map Text ℕ)
      → Rises s.repetitions m
      → Allowed env call s m
      → is_done (one_shot_of env call) s.one_shots ≡ false
      → ((tool_call_cache_key env.lib call == codes "|") ≡ false
          → lookup (tool_call_cache_key env.lib call) s.cached ≡ none)
      → Handled env call s (perform env call (one_shot_of env call) (with_counts s m))

pub count_of-bumped :
    (key j : Text) (m : Map Text ℕ)
    → count_of j (bumped key m) ≡ (if key == j then suc (count_of key m) else count_of j m)
unfolding bumped count_of
count_of-bumped key j m = ground (arith, lookup-insert key j (suc (count_of key m)) m, eq_iff key j)

bumped-Rises : (key : Text) (m m' : Map Text ℕ) → Rises m m' → Rises m (bumped key m')
bumped-Rises key m m' r j = ground (arith, count_of-bumped key j m', r j, eq_iff key j)

counted :
    (key k : Text) (limit l : ℕ) (m : Map Text ℕ)
    → ◌≡◌ {A = Option (Text × ℕ)} (some (key, limit)) (some (k, l))
    → ltb limit (count_of key (bumped key m)) ≡ false
    → (suc (count_of k m) ≤ count_of k (bumped key m)) × (suc (count_of k m) ≤ l)
counted key k limit l m e under =
    ground (arith, count_of-bumped key key m, eq_iff key key, e, under)

creation_check-Rises :
    (env : Env) (call : ToolCallRequest) (m : Map Text ℕ) → Rises m (creation_check env call m).0
unfolding creation_check
creation_check-Rises env call m j =
    let agent_id = extract_agent_id_from_args call.arguments in
    let key = call.name ++ (b'|' ∷ agent_id) in
    let total = codes "agent.create|total" in
    ground (
      arith,
      count_of-bumped key j m,
      count_of-bumped total j m,
      count_of-bumped total j (bumped key m),
      eq_iff key j,
      eq_iff total j,
    )

-- The guards of a call, in the order of the code; each is entered with counters `m` that stand for the call.
module _ (env : Env) (call : ToolCallRequest) (s : Calls)
    (done : is_done (one_shot_of env call) s.one_shots ≡ false) where
  Handled-create_guard :
      (m : Map Text ℕ)
      → Rises s.repetitions m
      → Allowed env call s m
      → ((tool_call_cache_key env.lib call == codes "|") ≡ false
          → lookup (tool_call_cache_key env.lib call) s.cached ≡ none)
      → Handled env call s (create_guard env call (one_shot_of env call) (with_counts s m))
  unfolding create_guard
  Handled-create_guard m r a c =
      let m' = (creation_check env call m).0 in
      let up : Rises m m' = creation_check-Rises env call m in
      let rises : Rises s.repetitions m' = λ k. omega (arith, r k, up k) in
      elim (Option-cases (creation_check env call m).1) [
        | inr (error, e) ↦ rw (e, create_guard) (answered (refused call error) m' no_progress rises)
        | inl e ↦
            rw (e, create_guard)
              (performed m' rises
                (λ k limit h. (omega (arith, (a k limit h).0, up k), (a k limit h).1)) done c)
      ]

  Handled-from_cache :
      (m : Map Text ℕ)
      → Rises s.repetitions m
      → Allowed env call s m
      → Handled env call s (from_cache env call (one_shot_of env call) (with_counts s m))
  unfolding from_cache
  Handled-from_cache m r a = elim (Bool-cases (tool_call_cache_key env.lib call == codes "|")) [
    | inl e ↦ rw (e, from_cache) (Handled-create_guard m r a (λ n. cc))
    | inr e ↦ elim (Option-cases (lookup (tool_call_cache_key env.lib call) s.cached)) [
      | inr (output, hit) ↦
          rw (e, hit, from_cache)
            (answered (record { id = call.id; output = output; error = [] }) m no_progress r)
      | inl miss ↦ elim (Option-cases (lookup (tool_call_cache_key env.lib call) s.cached_failed)) [
        | inr ((output, error), hit) ↦
            rw (e, miss, hit, from_cache)
              (answered (record { id = call.id; output = output; error = error }) m no_progress r)
        | inl fine ↦ rw (e, miss, fine, from_cache) (Handled-create_guard m r a (λ n. miss))
      ]
    ]
  ]

  Handled-repetition_guard : Handled env call s (repetition_guard env call (one_shot_of env call) s)
  unfolding repetition_guard
  Handled-repetition_guard = elim (Option-cases (held_to env call (one_shot_of env call))) [
    | inl e ↦
        rw (e, repetition_guard)
          (Handled-from_cache s.repetitions (λ k. omega arith) (λ k limit h. absurd (cc (h, e))))
    | inr ((key, limit), e) ↦
        let m = bumped key s.repetitions in
        let up : Rises s.repetitions m =
          bumped-Rises key s.repetitions s.repetitions (λ k. omega arith) in
        elim (Bool-cases (ltb limit (count_of key m))) [
          | inl over ↦
              rw (e, over, repetition_guard)
                (answered (refused call (repetition_error env.lib key (count_of key m))) m
                  no_progress up)
          | inr under ↦
              rw (e, under, repetition_guard)
                (Handled-from_cache m up
                  (λ k l h. counted key k limit l s.repetitions (sym e ∙ h) under))
        ]
  ]

-- What `handle` does is one of these.
pub handle-Handled :
    (env : Env) (call : ToolCallRequest) (s : Calls) → Handled env call s (handle env call s)
unfolding handle
handle-Handled env call s = elim (Bool-cases (is_done (one_shot_of env call) s.one_shots)) [
  | inl e ↦
      rw (e, handle)
        (answered
          (refused call
            (one_shot_error (elim (one_shot_of env call) [ none ↦ [] | some key ↦ key ])))
          s.repetitions (record { fresh = false; blocked = true }) (λ k. omega arith))
  | inr e ↦ rw (e, handle) (Handled-repetition_guard env call s e)
]

-- The states of a run between the batches of calls; the rest of the run may change the outcomes.
pub data Reachable (env : Env) : Calls → Type 0 where
  start : Reachable env new_calls
  batch :
      {s t : Calls} (calls : List ToolCallRequest) (p : Progress)
      → Reachable env s
      → execute_tools env calls s ≡ some (t, p)
      → Reachable env t
  between : {s : Calls} (o : Outcomes) → Reachable env s → Reachable env (record s { outcomes = o })

none-some {ℓ} : {A : Type ℓ} {a : A} → ◌≡◌ {A = Option A} none (some a) → ⊥
none-some e = cc e

-- What a call's admission and its handling keep, a run keeps.
module _ (env : Env) (P : Calls → Type 0)
    (handled : (call : ToolCallRequest) (s : Calls) (out : Calls × Progress)
      → Handled env call s out
      → P s
      → P out.0)
    (numbered : (n : ℕ) (ids : List Text) (s : Calls)
      → P s
      → P (record s { ordinal = n; used_ids = ids })) where
  execute_tools-keeps :
      (calls : List ToolCallRequest) (s t : Calls) (p : Progress)
      → execute_tools env calls s ≡ some (t, p)
      → P s
      → P t
  unfolding execute_tools admitted
  execute_tools-keeps [] s t p e h = subst P (ap (λ x. x.0) (some_inj.0 e)) h
  execute_tools-keeps (call ∷ rest) s t p e h =
      elim (Option-cases (unique_tool_call_id env.lib call.id (suc s.ordinal) s.used_ids)) [
        | inl n ↦ absurd (none-some (sym (rw (execute_tools, admitted, n) refl) ∙ e))
        | inr (id, u) ↦
            let call' : ToolCallRequest = record call { id = id } in
            let s' : Calls = record s { ordinal = suc s.ordinal; used_ids = id ∷ s.used_ids } in
            let out : Calls × Progress = handle env call' s' in
            elim (Option-cases (execute_tools env rest out.0)) [
              | inl n ↦ absurd (none-some (sym (rw (execute_tools, admitted, u, n) refl) ∙ e))
              | inr ((t', q), r) ↦
                  let step : execute_tools env (call ∷ rest) s ≡ some (t', merged out.1 q) =
                    rw (execute_tools, admitted, u, r) refl in
                  let same : t' ≡ t = ap (λ x. x.0) (some_inj.0 (sym step ∙ e)) in
                  subst P same (
                    execute_tools-keeps rest out.0 t' q r (
                      handled call' s' out (handle-Handled env call' s')
                        (numbered (suc s.ordinal) (id ∷ s.used_ids) s h)))
            ]
      ]

  pub Reachable-keeps :
      ((o : Outcomes) (s : Calls) → P s → P (record s { outcomes = o }))
      → P new_calls
      → (s : Calls) → Reachable env s
      → P s
  Reachable-keeps other new _ start = new
  Reachable-keeps other new t (batch calls p before e) =
      execute_tools-keeps calls _ t p e (Reachable-keeps other new _ before)
  Reachable-keeps other new _ (between {s} o before) =
      other o s (Reachable-keeps other new s before)
