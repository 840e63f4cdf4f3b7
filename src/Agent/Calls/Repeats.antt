-- ===== src/Agent/Calls/Repeats.antt =====
-- No call is executed more often than the cap of its key allows.
use openclawssy.Base.{
  ℕ, suc, ◌≤◌, ◌≡◌, refl, ap, Bool, true, false, ◌&&◌, Option, none, some, List, [], ◌∷◌, ◌++◌,
  Text, text_eq, nat_eq, ◌==◌, eq_iff, arith, Bool-cases, inl, inr, if◌then◌else◌,
}
use openclawssy.Agent.Calls.Keys.{ToolCallRequest}
use openclawssy.Agent.Calls.{Calls, Env, Progress, answer, perform, held_to, count_of, count_of}
use openclawssy.Agent.Calls.Steps.{
  Handled, answered, performed, Reachable, Reachable-keeps, one_shot_of, with_counts,
}
use openclawssy.Agent.Calls.Effects.{executed-perform, repetitions-perform}

unfoldable is_held : Env → Text → ℕ → ToolCallRequest → Bool
is_held env key limit call = elim (held_to env call (one_shot_of env call)) [
  | none ↦ false
  | some (k, l) ↦ k == key && l == limit
]

-- How many of the calls are held to the key with the cap.
unfoldable pub held_count : Env → Text → ℕ → List ToolCallRequest → ℕ
unfolding is_held
held_count env key limit [] = 0
held_count env key limit (call ∷ calls) =
    let rest = held_count env key limit calls in
    if is_held env key limit call then suc rest else rest

module _ (env : Env) (key : Text) (limit : ℕ) where
  held_count-snoc :
      (calls : List ToolCallRequest) (call : ToolCallRequest)
      → held_count env key limit (calls ++ call ∷ []) ≡ (
          if is_held env key limit call
          then suc (held_count env key limit calls)
          else held_count env key limit calls)
  unfolding held_count is_held
  held_count-snoc [] call = refl
  held_count-snoc (c ∷ calls) call = ground (arith, held_count-snoc calls call)

  is_held_to :
      (o : Option (Text × ℕ))
      → elim o [ none ↦ false | some (k, l) ↦ k == key && l == limit ] ≡ true
      → o ≡ some (key, limit)
  is_held_to none e = cc e
  is_held_to (some (k, l)) e = ground (arith, e, eq_iff k key)

  -- The counter of the key is never behind the executed calls, and they are within the cap.
  Within : Calls → Type 0
  Within s =
      (held_count env key limit s.executed ≤ count_of key s.repetitions)
      × (held_count env key limit s.executed ≤ limit)

  Handled-Within :
      (call : ToolCallRequest) (s : Calls) (out : Calls × Progress)
      → Handled env call s out
      → Within s
      → Within out.0
  unfolding answer is_held Within
  Handled-Within call s _ (answered r m p up) w = omega (arith, w, up key)
  Handled-Within call s _ (performed m up a d c) w =
      let t = perform env call (one_shot_of env call) (with_counts s m) in
      let held : held_count env key limit t.0.executed
          ≡ held_count env key limit (s.executed ++ call ∷ []) =
        ap (held_count env key limit)
          (executed-perform env call (one_shot_of env call) (with_counts s m)) in
      let counts : count_of key t.0.repetitions ≡ count_of key m =
        ap (count_of key) (repetitions-perform env call (one_shot_of env call) (with_counts s m)) in
      let grown = held_count-snoc s.executed call in
      elim (Bool-cases (is_held env key limit call)) [
        | inl hit ↦
            let now = a key limit (is_held_to (held_to env call (one_shot_of env call)) hit) in
            ground (arith, w, now, held, counts, grown, hit)
        | inr not_held ↦ ground (arith, w, up key, held, counts, grown, not_held)
      ]

-- In a run, the executor is given at most as many calls held to a key as the cap of the key: a call is
-- held to a key where executeTools checks it against a cap, whatever the executor answers.
pub repeated_calls_limited :
    (env : Env) (key : Text) (limit : ℕ) (s : Calls)
    → Reachable env s
    → held_count env key limit s.executed ≤ limit
unfolding held_count Within
repeated_calls_limited env key limit s run =
    (Reachable-keeps env (Within env key limit) (Handled-Within env key limit) (λ n ids s w. w)
      (λ o s w. w) (omega arith, omega arith) s run).1
