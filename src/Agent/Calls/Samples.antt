-- ===== src/Agent/Calls/Samples.antt =====
-- Concrete runs of tool calls.
use mathlib.Core.List.{tail-eq_of_cons-eq}
use openclawssy.Base.{
  ℕ, zero, suc, ◌≡◌, refl, ap, ◌≤◌, ◌+◌, Option, none, some, List, [], ◌∷◌, Text, codes, length,
  NoRepeats,
}
use openclawssy.Agent.Calls.Keys.{ToolCallRequest, Library, string}
use openclawssy.Agent.Calls.{Calls, Env, Progress, no_progress, execute_tools, new_calls}
use openclawssy.Agent.Calls.Steps.{Reachable, start, batch, one_shot_of}
use openclawssy.Agent.Calls.Unique.{execute_tools_total}
use openclawssy.Agent.Calls.Repeats.{repeated_calls_limited, held_count}
use openclawssy.Agent.Calls.Once.{Once, one_shot-Once, cached_call-Once, cache_key_of}

-- Numbers in unary, and one known document of arguments.
unary : ℕ → Text
unary zero = []
unary (suc n) = b'1' ∷ unary n

unary_injective : (m n : ℕ) → unary m ≡ unary n → m ≡ n
unfolding unary
unary_injective zero zero e = refl
unary_injective zero (suc n) e = absurd (cc e)
unary_injective (suc m) zero e = absurd (cc e)
unary_injective (suc m) (suc n) e = ap suc (unary_injective m n (tail-eq_of_cons-eq e))

abbrev sample_library : Library
sample_library = record {
  parse_object = λ t. some ((codes "updates", string (codes "on")) ∷ []);
  marshal_string = λ t. t;
  parse_url = λ t. none;
  print_url = λ u. [];
  strip_retry_suffix = λ t. t;
  to_upper = λ t. t;
  itoa = unary;
}

-- An executor that always succeeds.
abbrev sample_env : Env
sample_env = record {
  lib = sample_library;
  execute = λ before call. (record { id = []; output = codes "done"; error = [] }, none);
  on_tool_call = λ r. none;
  timeout_ms = 1000;
}

abbrev setting : ToolCallRequest
setting = record { id = codes "a"; name = codes "config.set"; arguments = codes "{}" }

abbrev listing : ToolCallRequest
listing = record { id = codes "a"; name = codes "scheduler.list"; arguments = [] }

abbrev batch_of_calls : List ToolCallRequest
batch_of_calls = setting ∷ setting ∷ listing ∷ listing ∷ listing ∷ listing ∷ []

after_batch : Calls × Progress
after_batch = elim (execute_tools sample_env batch_of_calls new_calls) [
  | none ↦ (new_calls, no_progress)
  | some out ↦ out
]

-- Every call of the batch has its result.
execute_tools_total_example :
    (t : Calls) × ((p : Progress) × (execute_tools sample_env batch_of_calls new_calls
        ≡ some (t, p)))
    × (length t.results ≡ 0 + 6)
    × (length t.records ≡ 0 + 6)
    × (length t.used_ids ≡ 0 + 6)
    × NoRepeats t.used_ids
execute_tools_total_example =
    execute_tools_total sample_env batch_of_calls new_calls unary_injective tt

found :
    (o : Option (Calls × Progress)) (x : Calls × Progress)
    → o ≡ some x
    → o ≡ some (elim o [ none ↦ (new_calls, no_progress) | some out ↦ out ])
found none x e = cc e
found (some y) x e = refl

batch_runs : execute_tools sample_env batch_of_calls new_calls ≡ some after_batch
unfolding after_batch
batch_runs =
    let (t, (p, e), _, _, _, _) =
      execute_tools_total sample_env batch_of_calls new_calls unary_injective tt in
    found (execute_tools sample_env batch_of_calls new_calls) (t, p) e

after_batch_Reachable : Reachable sample_env after_batch.0
after_batch_Reachable = batch batch_of_calls after_batch.1 start batch_runs

-- Three of the four listings were executed.
repeated_calls_limited_example :
    held_count sample_env (codes "scheduler.list") 3 after_batch.0.executed ≤ 3
repeated_calls_limited_example =
    repeated_calls_limited sample_env (codes "scheduler.list") 3 after_batch.0 after_batch_Reachable

one_shot-Once_example : Once sample_env (one_shot_of sample_env) after_batch.0.executed
one_shot-Once_example = one_shot-Once sample_env after_batch.0 after_batch_Reachable

cached_call-Once_example : Once sample_env (cache_key_of sample_env) after_batch.0.executed
cached_call-Once_example = cached_call-Once sample_env after_batch.0 after_batch_Reachable
