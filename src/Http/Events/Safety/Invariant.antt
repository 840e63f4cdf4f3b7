-- ===== src/Http/Events/Safety/Invariant.antt =====
-- What holds of a bus between two calls.
use openclawssy.Base.{
  ℕ, zero, suc, ◌≤◌, ◌≡◌, subst, false, none, some, List, [], ◌∷◌, ◌++◌, length, Text, text_eq,
  nat_eq, ◌==◌, eq_iff, Map, lookup, insert, lookup-insert, lookup-delete, UniqueKeys, All, arith,
  Option-cases, Bool-cases, inl, inr,
}
use openclawssy.Http.Events.Channel.{Chan}
use openclawssy.Http.Events.Prune.{RunEventState, new_state, prune_runs, prune_loop, remove_first}
use openclawssy.Http.Events.{RunEventBus, ensure_run, write_run}
use openclawssy.Http.Events.Safety.Channels.{Subs, Keeps, Keeps-Subs, everyone}

-- The subscribers of a run are numbered by its counter, once each, and each has an open channel of
-- its own with room in it.
pub record IsStream (key : Text) (chans : Map ℕ Chan) (state : RunEventState) : Type 0 where
  pub served : Subs key chans state.subscribers
  pub unique : UniqueKeys state.subscribers
  pub numbered : All (λ (p : ℕ × ℕ). p.0 ≤ state.next_sub_id) state.subscribers

pub record IsSafe (b : RunEventBus) : Type 0 where
  pub streams :
      (key : Text) (state : RunEventState)
      → lookup key b.runs ≡ some state
      → IsStream key b.chans state
  pub fresh : (a : ℕ) → b.next_chan ≤ a → lookup a b.chans ≡ none

pub new_state-IsStream : (key : Text) (chans : Map ℕ Chan) → IsStream key chans new_state
new_state-IsStream key chans = record { served = tt; unique = tt; numbered = tt }

-- Pruning only takes runs away.
abbrev Within : Map Text RunEventState → Map Text RunEventState → Type 0
Within small large =
    (key : Text) (state : RunEventState)
    → lookup key small ≡ some state
    → lookup key large ≡ some state

remove_first-Within :
    (runs : Map Text RunEventState) (order : List Text) (runs' : Map Text RunEventState)
    (order' : List Text)
    → remove_first runs order ≡ some (runs', order')
    → Within runs' runs
unfolding remove_first
remove_first-Within runs [] runs' order' e key state f = cc
remove_first-Within runs (run_id ∷ order) runs' order' e key state f =
    elim (Option-cases (remove_first runs order)) [
      | inl last ↦ ground (arith, lookup-delete run_id key runs)
      | inr ((later, rest), found) ↦ ground (
        arith,
        lookup-delete run_id key runs,
        remove_first-Within runs order later rest found key state,
      )
    ]

prune_loop-Within :
    (fuel max_runs : ℕ) (runs : Map Text RunEventState) (order : List Text)
    → Within (prune_loop fuel max_runs runs order).0 runs
unfolding prune_loop
prune_loop-Within zero max_runs runs order key state f = f
prune_loop-Within (suc fuel) max_runs runs order key state f =
    elim (Option-cases (remove_first runs order)) [
      | inl stop ↦ ground arith
      | inr ((runs', order'), found) ↦ ground (
        arith,
        remove_first-Within runs order runs' order' found key state,
        prune_loop-Within fuel max_runs runs' order' key state,
      )
    ]

pub prune_runs-Within :
    (max_runs : ℕ) (runs : Map Text RunEventState) (order : List Text) (key : Text)
    (state : RunEventState)
    → lookup key (prune_runs max_runs runs order).0 ≡ some state
    → lookup key runs ≡ some state
unfolding prune_runs
prune_runs-Within zero runs order key state f = f
prune_runs-Within (suc max_runs) runs order key state f =
    prune_loop-Within (suc (length order)) (suc max_runs) runs order key state f

-- A map with a run put in holds streams, if the run's state is one and the other runs' are.
pub insert-streams :
    (key : Text) (state : RunEventState) (runs : Map Text RunEventState) (chans : Map ℕ Chan)
    → IsStream key chans state
    → ((j : Text) (s : RunEventState)
        → (key == j) ≡ false
        → lookup j runs ≡ some s
        → IsStream j chans s)
    → (j : Text) (s : RunEventState) → lookup j (insert key state runs) ≡ some s
    → IsStream j chans s
insert-streams key state runs chans v others j s e = elim (Bool-cases (key == j)) [
  | inl same ↦
      let p : key ≡ j = (eq_iff key j).0 same in
      let q : state ≡ s = ground (arith, lookup-insert key j state runs) in
      subst (λ k. IsStream k chans s) p (subst (IsStream key chans) q v)
  | inr differ ↦ others j s differ (ground (arith, lookup-insert key j state runs))
]

pub write_run-streams :
    (key : Text) (state : RunEventState) (runs : Map Text RunEventState) (chans : Map ℕ Chan)
    → IsStream key chans state
    → ((j : Text) (s : RunEventState) → lookup j runs ≡ some s → IsStream j chans s)
    → (j : Text) (s : RunEventState) → lookup j (write_run key state runs) ≡ some s
    → IsStream j chans s
unfolding write_run
write_run-streams key state runs chans v others j s e = elim (Option-cases (lookup key runs)) [
  | inl missing ↦ others j s (ground arith)
  | inr (old, found) ↦
      insert-streams key state runs chans v (λ k t d. others k t) j s (ground arith)
]

pub ensure_run-IsSafe : (key : Text) (b : RunEventBus) → IsSafe b → IsSafe (ensure_run key b).0
unfolding ensure_run
ensure_run-IsSafe key b v = elim (Option-cases (lookup key b.runs)) [
  | inl missing ↦
      rw (missing, ensure_run)
        (record {
          streams = λ j s e.
              insert-streams key new_state b.runs b.chans (new_state-IsStream key b.chans)
                (λ k t d. v.streams k t) j s
                (prune_runs-Within b.max_runs (insert key new_state b.runs)
                  (b.run_order ++ key ∷ []) j s e);
          fresh = v.fresh;
        })
  | inr (state, found) ↦ rw (found, ensure_run) v
]

pub ensure_run-IsStream :
    (key : Text) (b : RunEventBus)
    → IsSafe b
    → IsStream key (ensure_run key b).0.chans (ensure_run key b).1
unfolding ensure_run
ensure_run-IsStream key b v = elim (Option-cases (lookup key b.runs)) [
  | inl missing ↦ rw (missing, ensure_run) (new_state-IsStream key b.chans)
  | inr (state, found) ↦ rw (found, ensure_run) (v.streams key state found)
]

-- Running streams over a heap that keeps them.
pub streams-Keeps :
    (b : RunEventBus) (chans : Map ℕ Chan)
    → IsSafe b
    → Keeps everyone b.chans chans
    → IsSafe (record b { chans = chans })
streams-Keeps b chans v k = record {
  streams = λ key state e.
      let s = v.streams key state e in
      record {
        served = Keeps-Subs key b.chans chans state.subscribers k s.served;
        unique = s.unique;
        numbered = s.numbered;
      };
  fresh = λ a h. k.free a (v.fresh a h);
}

pub IsStream-Keeps :
    (key : Text) (chans chans' : Map ℕ Chan) (state : RunEventState)
    → Keeps everyone chans chans'
    → IsStream key chans state
    → IsStream key chans' state
IsStream-Keeps key chans chans' state k s = record {
  served = Keeps-Subs key chans chans' state.subscribers k s.served;
  unique = s.unique;
  numbered = s.numbered;
}
