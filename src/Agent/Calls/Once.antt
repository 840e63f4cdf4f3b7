-- ===== src/Agent/Calls/Once.antt =====
-- What has succeeded once is not executed again.
use mathlib.Core.List.{tail-eq_of_cons-eq}
use openclawssy.Base.{
  ◌≡◌, ◌≢◌, refl, sym, ap, subst, ◌∙◌, true, false, Option, none, some, List, [], ◌∷◌, ◌++◌, Text,
  text_eq, ◌==◌, trim, contains, codes, All, All-append, arith, lookup, if◌then◌else◌, inl, inr,
  ◌⊎◌, Map, length, length-append,
}
use openclawssy.Agent.Calls.Keys.{ToolCallRequest}
use openclawssy.Agent.Calls.Caps.{tool_call_cache_key}
use openclawssy.Agent.Calls.{Calls, Env, Progress, answer, perform, settled, is_done}
use openclawssy.Agent.Calls.Cacheable.{one_shot_cacheable}
use openclawssy.Agent.Calls.Steps.{
  Handled, answered, performed, Reachable, Reachable-keeps, one_shot_of, with_counts,
}
use openclawssy.Agent.Calls.Effects.{
  executed-perform, one_shots-perform, cached-perform, perform-success,
}

abbrev Succeeds : Env → List ToolCallRequest → ToolCallRequest → Type 0
Succeeds env before call = trim (settled env call before).error ≡ []

-- After a call that succeeded, no call with its key is executed.
pub Once : Env → (ToolCallRequest → Option Text) → List ToolCallRequest → Type 0
Once env key calls =
    (before : List ToolCallRequest) (call : ToolCallRequest) (after : List ToolCallRequest)
    (k : Text)
    → calls ≡ before ++ call ∷ after
    → key call ≡ some k
    → Succeeds env before call
    → All (λ later. key later ≢ some k) after

-- Where an entry of `xs ++ x ∷ []` stands: at the end, or in `xs`.
split_snoc {ℓ} :
    {A : Type ℓ} (xs : List A) (x : A) (before : List A) (c : A) (after : List A)
    → xs ++ x ∷ [] ≡ before ++ c ∷ after
    → ((xs ≡ before) × (x ≡ c) × (after ≡ []))
      ⊎ ((front : List A) × (after ≡ front ++ x ∷ []) × (xs ≡ before ++ c ∷ front))
split_snoc [] x [] c after e = inl (refl, cc e, cc e)
split_snoc [] x (b ∷ before) c after e =
    absurd (omega (arith, length-append before (c ∷ after), ap length e))
split_snoc (y ∷ xs) x [] c after e = inr (xs, cc e, cc e)
split_snoc (y ∷ xs) x (b ∷ before) c after e =
    elim (split_snoc xs x before c after (tail-eq_of_cons-eq e)) [
      | inl (p, q, r) ↦ inl (cc (e, p), q, r)
      | inr (front, p, q) ↦ inr (front, p, cc (e, q))
    ]

-- A key that is noted as done when its call succeeds, and of which no noted call is executed.
record Notes (env : Env) (key : ToolCallRequest → Option Text)
    (Done : List Text → Map Text Text → Text → Type 0) : Type 0 where
  kept :
      (call : ToolCallRequest) (s : Calls) (k : Text)
      → Done s.one_shots s.cached k
      → let t = (perform env call (one_shot_of env call) s).0 in Done t.one_shots t.cached k
  noted :
      (call : ToolCallRequest) (s : Calls) (k : Text)
      → key call ≡ some k
      → Succeeds env s.executed call
      → let t = (perform env call (one_shot_of env call) s).0 in Done t.one_shots t.cached k
  guarded :
      (call : ToolCallRequest) (s : Calls) (k : Text)
      → is_done (one_shot_of env call) s.one_shots ≡ false
      → ((tool_call_cache_key env.lib call == codes "|") ≡ false
          → lookup (tool_call_cache_key env.lib call) s.cached ≡ none)
      → Done s.one_shots s.cached k
      → key call ≢ some k

module _ {env : Env} {key : ToolCallRequest → Option Text}
    {Done : List Text → Map Text Text → Text → Type 0} (notes : Notes env key Done) where
  Inv : Calls → Type 0
  Inv s =
      (before : List ToolCallRequest) (call : ToolCallRequest) (after : List ToolCallRequest)
      (k : Text)
      → s.executed ≡ before ++ call ∷ after
      → key call ≡ some k
      → Succeeds env before call
      → All (λ later. key later ≢ some k) after × Done s.one_shots s.cached k

  Handled-Inv :
      (call : ToolCallRequest) (s : Calls) (out : Calls × Progress)
      → Handled env call s out
      → Inv s
      → Inv out.0
  unfolding Inv answer
  Handled-Inv call s _ (answered r m p up) inv before c' after k e has ok =
      inv before c' after k e has ok
  Handled-Inv call s _ (performed m up a d c) inv before c' after k e has ok =
      let s' = with_counts s m in
      let t = (perform env call (one_shot_of env call) s').0 in
      elim (split_snoc s.executed call before c' after
        (sym (executed-perform env call (one_shot_of env call) s') ∙ e)) [
          | inl (p, q, r) ↦ (
            subst (All (λ later. key later ≢ some k)) (sym r) tt,
            notes.noted call s' k (ap key q ∙ has)
                (subst (λ b. Succeeds env b call) (sym p) (subst (Succeeds env before) (sym q) ok)),
          )
          | inr (front, p, q) ↦
              let (past, done) = inv before c' front k q has ok in
              (
                subst (All (λ later. key later ≢ some k)) (sym p) (
                    All-append (λ later. key later ≢ some k) front (call ∷ []) past
                      (notes.guarded call s' k d c done, tt)),
                notes.kept call s' k done,
              )
        ]

  Reachable-Once : (s : Calls) → Reachable env s → Once env key s.executed
  unfolding Inv Once
  Reachable-Once s run before call after k e has ok =
      (Reachable-keeps env Inv Handled-Inv (λ n ids s w. w) (λ o s w. w)
        (λ before call after k e.
          absurd (omega (arith, length-append before (call ∷ after), ap length e)))
        s run before call after k e has ok).0

-- The key under which a call is cached.
pub cache_key_of : Env → ToolCallRequest → Option Text
cache_key_of env call =
    if tool_call_cache_key env.lib call == codes "|"
    then none
    else some (tool_call_cache_key env.lib call)

cache_key_of-some :
    (env : Env) (call : ToolCallRequest) (k : Text)
    → cache_key_of env call ≡ some k
    → ((tool_call_cache_key env.lib call == codes "|") ≡ false)
      × (tool_call_cache_key env.lib call ≡ k)
unfolding cache_key_of
cache_key_of-some env call k e = ground (arith, e)

cached_notes : (env : Env) → Notes env (cache_key_of env) (λ ones cached k. lookup k cached ≢ none)
cached_notes env = record {
  kept = λ call s k h. cached-perform env call (one_shot_of env call) s k h;
  noted = λ call s k has ok.
      let (plain, same) = cache_key_of-some env call k has in
      subst (λ j. lookup j (perform env call (one_shot_of env call) s).0.cached ≢ none) same
        (perform-success env call (one_shot_of env call) s plain ok).0;
  guarded = λ call s k d c h has.
      let (plain, same) = cache_key_of-some env call k has in
      h (subst (λ j. lookup j s.cached ≡ none) same (c plain));
}

-- In a run, after a call that may be cached has succeeded, no call with its key in the cache is executed.
pub cached_call-Once :
    (env : Env) (s : Calls) → Reachable env s → Once env (cache_key_of env) s.executed
unfolding Once
cached_call-Once env = Reachable-Once (cached_notes env)

one_shot_notes : (env : Env) → Notes env (one_shot_of env) (λ ones cached k. contains ones k ≡ true)
unfolding is_done
one_shot_notes env = record {
  kept = λ call s k h. one_shots-perform env call (one_shot_of env call) s k h;
  noted = λ call s k has ok.
      (perform-success env call (one_shot_of env call) s (one_shot_cacheable env.lib call k has)
          ok).1
        k has;
  guarded = λ call s k d c h has. ground (arith, d, h, has);
}

-- In a run, after a mutation that is done once has succeeded (as scheduler.add, policy.grant or
-- config.set with the same arguments that matter), no call with its key goes to the executor.
pub one_shot-Once :
    (env : Env) (s : Calls) → Reachable env s → Once env (one_shot_of env) s.executed
unfolding Once
one_shot-Once env = Reachable-Once (one_shot_notes env)
