-- ===== src/Agent/Calls/Cacheable.antt =====
-- The mutations that are done once are among the calls that may be cached.
use openclawssy.Base.{
  ◌≡◌, ◌≢◌, refl, sym, ap, subst, ◌∙◌, true, false, Option, none, some, List, [], ◌∷◌, ◌++◌, Text,
  text_eq, text_beq, ◌==◌, eq_iff, trim, trim_left, trim_right, contains, codes, All, arith,
  if◌then◌else◌, Bool-cases, Option-cases, inl, inr, has_prefix,
}
use openclawssy.Agent.Calls.Keys.{
  ToolCallRequest, Library, named_mutation_key, parse_tool_args, one_shot_mutation_repetition_key,
  Value,
}
use openclawssy.Agent.Calls.Caps.{
  tool_call_cache_key, is_uncacheable, state_readers, normalized_memory_write_key,
  normalized_http_request_cache_key,
}

contains-All {κ} :
    (P : Text → Type κ) (ts : List Text) (t : Text) → contains ts t ≡ true → All P ts → P t
unfolding contains
contains-All P [] t e h = absurd (cc e)
contains-All P (u ∷ ts) t e h = elim (Bool-cases (u == t)) [
  | inl hit ↦ subst P ((eq_iff u t).0 hit) h.0
  | inr miss ↦ contains-All P ts t (ground (arith, e, miss)) h.1
]

beq_comm : (a b : Text) → (a == b) ≡ (b == a)
beq_comm a b = ground (arith, eq_iff a b, eq_iff b a)

-- The tools that change something and whose calls are done once.
mutations : List Text
mutations =
    codes "scheduler.add"
    ∷ codes "scheduler.remove"
    ∷ codes "scheduler.pause"
    ∷ codes "scheduler.resume"
    ∷ codes "policy.grant"
    ∷ codes "policy.revoke"
    ∷ codes "session.close"
    ∷ codes "agent.switch"
    ∷ codes "agent.identity.set"
    ∷ codes "config.set"
    ∷ []

named_mutation :
    (lib : Library) (name : Text) (args : List (Text × Value)) (k : Text)
    → named_mutation_key lib name args ≡ some k
    → contains mutations name ≡ true
unfolding named_mutation_key mutations contains
named_mutation lib name args k e = ground (
  arith,
  e,
  beq_comm name (codes "scheduler.add"),
  beq_comm name (codes "scheduler.remove"),
  beq_comm name (codes "scheduler.pause"),
  beq_comm name (codes "scheduler.resume"),
  beq_comm name (codes "policy.grant"),
  beq_comm name (codes "policy.revoke"),
  beq_comm name (codes "session.close"),
  beq_comm name (codes "agent.switch"),
  beq_comm name (codes "agent.identity.set"),
  beq_comm name (codes "config.set"),
)

mutation_cacheable : (name : Text) → contains mutations name ≡ true → is_uncacheable name ≡ false
unfolding mutations is_uncacheable state_readers contains has_prefix text_beq codes
mutation_cacheable name e =
    contains-All (λ t. is_uncacheable t ≡ false) mutations name e
      (refl, (refl, (refl, (refl, (refl, (refl, (refl, (refl, (refl, (refl, tt))))))))))

key_plain : (a b : Text) → a ≢ [] → ((a ++ b'|' ∷ b) == codes "|") ≡ false
unfolding text_beq codes
key_plain [] b n = absurd (n refl)
key_plain (c ∷ []) b n = ground arith
key_plain (c ∷ d ∷ a) b n = ground arith

key_or_plain :
    (o : Option Text) (name plain : Text)
    → name ≢ []
    → (plain == codes "|") ≡ false
    → (elim o as (λ x. Text) [ none ↦ plain | some key ↦ name ++ (b'|' ∷ key) ] == codes "|")
      ≡ false
key_or_plain none name plain n p = p
key_or_plain (some key) name plain n p = key_plain name key n

-- Every key under which a call is cached has a name before its bar.
tool_call_cache_key_plain :
    (lib : Library) (call : ToolCallRequest)
    → is_uncacheable (trim call.name) ≡ false
    → call.name ≢ []
    → (tool_call_cache_key lib call == codes "|") ≡ false
unfolding tool_call_cache_key codes
tool_call_cache_key_plain lib call u n =
    let plain = call.name ++ (b'|' ∷ call.arguments) in
    let p : (plain == codes "|") ≡ false = key_plain call.name call.arguments n in
    let memory : Text =
      if trim call.name == codes "memory.write"
      then elim (normalized_memory_write_key lib call.arguments) [
        | none ↦ plain
        | some key ↦ codes "memory.write" ++ (b'|' ∷ key)
      ]
      else plain in
    let m : (memory == codes "|") ≡ false = ground (
      arith,
      p,
      key_or_plain (normalized_memory_write_key lib call.arguments) (codes "memory.write") plain
          (λ e. cc e) p,
    ) in
    ground (
      arith,
      u,
      m,
      key_or_plain (normalized_http_request_cache_key lib call.arguments) (codes "http.request")
          memory (λ e. cc e) m,
    )

not_nameless : contains mutations (trim []) ≡ false
unfolding contains mutations codes text_beq trim trim_left trim_right
not_nameless = refl

-- A call of a mutation that is done once may be cached.
pub one_shot_cacheable :
    (lib : Library) (call : ToolCallRequest) (k : Text)
    → one_shot_mutation_repetition_key lib call.name call.arguments ≡ some k
    → (tool_call_cache_key lib call == codes "|") ≡ false
unfolding one_shot_mutation_repetition_key
one_shot_cacheable lib call k e = elim (Option-cases (parse_tool_args lib call.arguments)) [
  | inl none_there ↦ ground (arith, e, none_there)
  | inr (args, p) ↦
      let known =
        named_mutation lib (trim call.name) args k
          (sym (rw (one_shot_mutation_repetition_key, p) refl) ∙ e) in
      tool_call_cache_key_plain lib call (mutation_cacheable (trim call.name) known)
        (λ empty. cc (known, ap (λ n. contains mutations (trim n)) empty, not_nameless))
]
