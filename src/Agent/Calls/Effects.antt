-- ===== src/Agent/Calls/Effects.antt =====
-- What a call that goes to the executor changes, field by field.
use openclawssy.Base.{
  ◌≡◌, ◌≢◌, refl, true, false, Option, none, some, [], ◌∷◌, ◌++◌, Text, text_eq, text_beq, ◌==◌,
  lookup, insert, lookup-insert, eq_iff, arith, codes, trim, contains,
}
use openclawssy.Agent.Calls.Keys.{ToolCallRequest}
use openclawssy.Agent.Calls.Caps.{tool_call_cache_key}
use openclawssy.Agent.Calls.{
  Calls, Env, answer, perform, settled, note_cacheable, note_uncacheable, with_one_shot,
  notify_tool_call,
}

module _ (env : Env) (call : ToolCallRequest) (o : Option Text) (s : Calls) where
  pub executed-perform : (perform env call o s).0.executed ≡ s.executed ++ call ∷ []
  unfolding perform answer note_cacheable note_uncacheable
  executed-perform = ground arith

  pub results-perform :
      (perform env call o s).0.results ≡ s.results ++ settled env call s.executed ∷ []
  unfolding perform answer note_cacheable note_uncacheable
  results-perform = ground arith

  pub records-perform :
      (perform env call o s).0.records
      ≡ s.records ++ notify_tool_call env call (settled env call s.executed) ∷ []
  unfolding perform answer note_cacheable note_uncacheable
  records-perform = ground arith

  pub used_ids-perform : (perform env call o s).0.used_ids ≡ s.used_ids
  unfolding perform answer note_cacheable note_uncacheable
  used_ids-perform = ground arith

  pub repetitions-perform : (perform env call o s).0.repetitions ≡ s.repetitions
  unfolding perform answer note_cacheable note_uncacheable
  repetitions-perform = ground arith

  -- A mutation that was done stays done.
  pub one_shots-perform :
      (key : Text)
      → contains s.one_shots key ≡ true
      → contains (perform env call o s).0.one_shots key ≡ true
  unfolding perform answer note_cacheable note_uncacheable with_one_shot contains
  one_shots-perform key h = ground (arith, h)

  -- What was cached stays cached.
  pub cached-perform :
      (key : Text) → lookup key s.cached ≢ none → lookup key (perform env call o s).0.cached ≢ none
  unfolding perform answer note_cacheable note_uncacheable
  cached-perform key h e =
      let k = tool_call_cache_key env.lib call in
      ground (arith, h, e, lookup-insert k key (settled env call s.executed).output s.cached)

  -- A call that may be cached and succeeds is cached, and its mutation is done.
  cached-success :
      (tool_call_cache_key env.lib call == codes "|") ≡ false
      → trim (settled env call s.executed).error ≡ []
      → (perform env call o s).0.cached
        ≡ insert (tool_call_cache_key env.lib call) (settled env call s.executed).output s.cached
  unfolding perform answer note_cacheable text_beq insert
  cached-success fresh ok = rw (fresh, perform, note_cacheable, ok) refl

  one_shots-success :
      (tool_call_cache_key env.lib call == codes "|") ≡ false
      → trim (settled env call s.executed).error ≡ []
      → (perform env call o s).0.one_shots ≡ with_one_shot o s.one_shots
  unfolding perform answer note_cacheable text_beq
  one_shots-success fresh ok = rw (fresh, perform, note_cacheable, ok) refl

  pub perform-success :
      (tool_call_cache_key env.lib call == codes "|") ≡ false
      → trim (settled env call s.executed).error ≡ []
      → (lookup (tool_call_cache_key env.lib call) (perform env call o s).0.cached ≢ none)
        × ((key : Text) → o ≡ some key → contains (perform env call o s).0.one_shots key ≡ true)
  unfolding with_one_shot contains
  perform-success fresh ok =
      let k = tool_call_cache_key env.lib call in
      (
        (λ e. ground (
          arith,
          cached-success fresh ok,
          e,
          lookup-insert k k (settled env call s.executed).output s.cached,
          eq_iff k k,
        )),
        (λ key e. ground (arith, one_shots-success fresh ok, e, eq_iff key key)),
      )
