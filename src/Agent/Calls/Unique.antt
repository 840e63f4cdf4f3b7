-- ===== src/Agent/Calls/Unique.antt =====
-- Every call of a batch is answered, under an id of its own.
use mathlib.Core.List.{append_cancel_left, tail-eq_of_cons-eq}
use openclawssy.Base.{
  ℕ, zero, suc, ◌+◌, ◌<◌, ◌≡◌, refl, sym, ap, ◌∙◌, subst, false, none, some, List, [], ◌∷◌, ◌++◌,
  length, length-append, Text, codes, text_eq, eq_iff, ◌==◌, trim, if◌then◌else◌, arith, contains,
  NoRepeats, AllIn, AllIn-length, Option-cases, inl, inr,
}
use openclawssy.Agent.Calls.Keys.{ToolCallRequest, Library}
use openclawssy.Agent.Calls.Steps.{
  Handled, answered, performed, handle-Handled, with_counts, one_shot_of,
}
use openclawssy.Agent.Calls.Effects.{results-perform, records-perform, used_ids-perform}
use openclawssy.Agent.Calls.{
  Calls, Env, Progress, answer, handle, admitted, execute_tools, notify_tool_call, no_progress,
  merged, settled,
}
use openclawssy.Agent.Calls.Texts.{id_candidate, find_id, unique_tool_call_id}

-- The candidates from `k` on, as many as `fuel`.
tried : Library → Text → ℕ → ℕ → List Text
tried lib base k zero = []
tried lib base k (suc fuel) = id_candidate lib base k ∷ tried lib base (suc k) fuel

find_id-none :
    (lib : Library) (fuel k : ℕ) (base : Text) (used : List Text)
    → find_id lib fuel k base used ≡ none
    → AllIn used (tried lib base k fuel)
unfolding find_id tried
find_id-none lib zero k base used e = tt
find_id-none lib (suc fuel) k base used e =
    (ground arith, find_id-none lib fuel (suc k) base used (ground arith))

find_id-fresh :
    (lib : Library) (fuel k : ℕ) (base : Text) (used : List Text) (id : Text)
    → find_id lib fuel k base used ≡ some id
    → contains used id ≡ false
unfolding find_id
find_id-fresh lib zero k base used id e = cc
find_id-fresh lib (suc fuel) k base used id e =
    ground (arith, find_id-fresh lib fuel (suc k) base used id)

-- strconv.Itoa tells numbers apart.
abbrev pub IsInjective : Library → Type 0
IsInjective lib = (m n : ℕ) → lib.itoa m ≡ lib.itoa n → m ≡ n

apart : (a b : Text) → (a ≡ b → ⊥) → (a == b) ≡ false
apart a b n = ground (arith, eq_iff a b, n)

append-longer : (base : Text) (c : ℕ) (t : Text) → base ++ c ∷ t ≡ base → ⊥
append-longer base c t e = omega (arith, length-append base (c ∷ t), ap length e)

-- Two candidates of one base differ.
id_candidate_apart :
    (lib : Library) (base : Text) (j k : ℕ)
    → IsInjective lib
    → j < k
    → (id_candidate lib base k == id_candidate lib base j) ≡ false
unfolding id_candidate
id_candidate_apart lib base j zero i h = absurd (omega arith)
id_candidate_apart lib base zero (suc k) i h =
    apart (base ++ b'-' ∷ lib.itoa (suc (suc k))) base
      (append-longer base b'-' (lib.itoa (suc (suc k))))
id_candidate_apart lib base (suc j) (suc k) i h =
    apart (base ++ b'-' ∷ lib.itoa (suc (suc k))) (base ++ b'-' ∷ lib.itoa (suc (suc j))) λ e.
      let same : suc (suc k) ≡ suc (suc j) = i (suc (suc k)) (suc (suc j)) (
        tail-eq_of_cons-eq (
          append_cancel_left base (b'-' ∷ lib.itoa (suc (suc k))) (b'-' ∷ lib.itoa (suc (suc j)))
            e)) in
      omega arith

tried-later :
    (lib : Library) (fuel j k : ℕ) (base : Text)
    → IsInjective lib
    → j < k
    → contains (tried lib base k fuel) (id_candidate lib base j) ≡ false
unfolding tried contains
tried-later lib zero j k base i h = refl
tried-later lib (suc fuel) j k base i h = ground (
  arith,
  id_candidate_apart lib base j k i h,
  tried-later lib fuel j (suc k) base i (omega arith),
)

tried-NoRepeats :
    (lib : Library) (fuel k : ℕ) (base : Text) → IsInjective lib → NoRepeats (tried lib base k fuel)
unfolding tried
tried-NoRepeats lib zero k base i = tt
tried-NoRepeats lib (suc fuel) k base i =
    (tried-later lib fuel k (suc k) base i (omega arith), tried-NoRepeats lib fuel (suc k) base i)

length-tried : (lib : Library) (fuel k : ℕ) (base : Text) → length (tried lib base k fuel) ≡ fuel
unfolding tried
length-tried lib zero k base = refl
length-tried lib (suc fuel) k base = ap suc (length-tried lib fuel (suc k) base)

-- With a candidate more than there are ids, one is free.
find_id_total :
    (lib : Library) (base : Text) (used : List Text)
    → IsInjective lib
    → (id : Text) × (find_id lib (suc (length used)) 0 base used ≡ some id)
find_id_total lib base used i = elim (Option-cases (find_id lib (suc (length used)) 0 base used)) [
  | inr found ↦ found
  | inl e ↦ absurd (
      omega (
        arith,
        length-tried lib (suc (length used)) 0 base,
        AllIn-length used (tried lib base 0 (suc (length used)))
            (tried-NoRepeats lib (suc (length used)) 0 base i)
            (find_id-none lib (suc (length used)) 0 base used e),
      ))
]

-- The loop of uniqueToolCallID ends, and the id that it finds is not in use.
pub unique_tool_call_id_total :
    (lib : Library) (raw : Text) (ordinal : ℕ) (used : List Text)
    → IsInjective lib
    → (id : Text) × (unique_tool_call_id lib raw ordinal used ≡ some id)
      × (contains used id ≡ false)
unfolding unique_tool_call_id
unique_tool_call_id_total lib raw ordinal used i =
    let base : Text = if trim raw == [] then codes "tool-call-" ++ lib.itoa ordinal else trim raw in
    let (id, e) = find_id_total lib base used i in
    (id, e, find_id-fresh lib (suc (length used)) 0 base used id e)

-- One result and one record more, and the same ids in use.
record Answers (s t : Calls) : Type 0 where
  results : length t.results ≡ suc (length s.results)
  records : length t.records ≡ suc (length s.records)
  used_ids : t.used_ids ≡ s.used_ids

length-snoc {ℓ} : {A : Type ℓ} (xs : List A) (x : A) → length (xs ++ x ∷ []) ≡ suc (length xs)
length-snoc xs x = omega (arith, length-append xs (x ∷ []))

Handled-Answers :
    (env : Env) (call : ToolCallRequest) (s : Calls) (out : Calls × Progress)
    → Handled env call s out
    → Answers s out.0
unfolding answer
Handled-Answers env call s _ (answered r m p up) = record {
  results = length-snoc s.results r;
  records = length-snoc s.records (notify_tool_call env call r);
  used_ids = refl;
}
Handled-Answers env call s _ (performed m up a d c) =
    let o = one_shot_of env call in
    record {
      results =
          ap length (results-perform env call o (with_counts s m))
          ∙ length-snoc s.results (settled env call s.executed);
      records =
          ap length (records-perform env call o (with_counts s m))
          ∙ length-snoc s.records (notify_tool_call env call (settled env call s.executed));
      used_ids = used_ids-perform env call o (with_counts s m);
    }

admitted-some :
    (env : Env) (call : ToolCallRequest) (s : Calls) (id : Text)
    → unique_tool_call_id env.lib call.id (suc s.ordinal) s.used_ids ≡ some id
    → admitted env call s
      ≡ some (
        record call { id = id },
        record s { ordinal = suc s.ordinal; used_ids = id ∷ s.used_ids },
      )
unfolding admitted
admitted-some env call s id e = rw (e, admitted) refl

execute_tools-some :
    (env : Env) (call call' : ToolCallRequest) (rest : List ToolCallRequest) (s s' t : Calls)
    (p : Progress)
    → admitted env call s ≡ some (call', s')
    → execute_tools env rest (handle env call' s').0 ≡ some (t, p)
    → execute_tools env (call ∷ rest) s ≡ some (t, merged (handle env call' s').1 p)
unfolding execute_tools
execute_tools-some env call call' rest s s' t p e e' = rw (execute_tools, e, e') refl

-- Every batch of calls is carried out: each call gets one result and one record, and the ids that were
-- given to the calls of the run are pairwise different, provided that strconv.Itoa tells numbers apart.
pub execute_tools_total :
    (env : Env) (calls : List ToolCallRequest) (s : Calls)
    → IsInjective env.lib
    → NoRepeats s.used_ids
    → (t : Calls) × ((p : Progress) × (execute_tools env calls s ≡ some (t, p)))
      × (length t.results ≡ length s.results + length calls)
      × (length t.records ≡ length s.records + length calls)
      × (length t.used_ids ≡ length s.used_ids + length calls)
      × NoRepeats t.used_ids
unfolding execute_tools
execute_tools_total env [] s i u =
    (s, (no_progress, refl), omega arith, omega arith, omega arith, u)
execute_tools_total env (call ∷ rest) s i u =
    let (id, e, fresh) = unique_tool_call_id_total env.lib call.id (suc s.ordinal) s.used_ids i in
    let call' : ToolCallRequest = record call { id = id } in
    let s' : Calls = record s { ordinal = suc s.ordinal; used_ids = id ∷ s.used_ids } in
    let a = Handled-Answers env call' s' (handle env call' s') (handle-Handled env call' s') in
    let ids : NoRepeats (handle env call' s').0.used_ids =
      subst (λ x. NoRepeats x) (sym a.used_ids) (fresh, u) in
    let (t, (p, e'), r, c, n, u') = execute_tools_total env rest (handle env call' s').0 i ids in
    (
      t,
      (
        merged (handle env call' s').1 p,
        execute_tools-some env call call' rest s s' t p (admitted-some env call s id e) e',
      ),
      omega (arith, r, a.results),
      omega (arith, c, a.records),
      omega (arith, n, ap length a.used_ids),
      u',
    )
