-- ===== src/Http/Events/Prune.antt =====
-- The state of a run's stream, and pruneRunsLocked.
use openclawssy.Base.{
  ℕ, zero, suc, ◌≤◌, ◌<◌, ◌≡◌, Bool, true, false, ◌&&◌, Option, none, some, List, [], ◌∷◌, length,
  Text, text_eq, Map, lookup, delete, lookup-delete, if◌then◌else◌, ltb, arith, eq_iff, ◌⊎◌, inl,
  inr, Option-cases,
}
use openclawssy.Http.Events.Channel.{RunEvent}

-- The subscribers map a subscription's number to the address of its channel.
pub record RunEventState : Type 0 where
  pub next_id : ℕ
  pub next_sub_id : ℕ
  pub replay : List RunEvent
  pub subscribers : Map ℕ ℕ
  pub terminal : Bool
  pub terminal_events : List RunEvent
  pub dropped : ℕ

abbrev pub new_state : RunEventState
new_state = record {
  next_id = 0;
  next_sub_id = 0;
  replay = [];
  subscribers = [];
  terminal = false;
  terminal_events = [];
  dropped = 0;
}

unfoldable pub no_entries {ℓ} : {A : Type ℓ} → List A → Bool
no_entries [] = true
no_entries (x ∷ xs) = false

-- A run that ended and that nobody listens to.
unfoldable pub is_removable : RunEventState → Bool
unfolding no_entries
is_removable state = state.terminal && no_entries state.subscribers

-- The inner loop: the first entry of the order that can go, with the map and the order without it.
unfoldable pub remove_first :
    Map Text RunEventState → List Text → Option (Map Text RunEventState × List Text)
remove_first runs [] = none
remove_first runs (run_id ∷ order) =
    let later : Option (Map Text RunEventState × List Text) = elim (remove_first runs order) [
      | none ↦ none
      | some (runs', order') ↦ some (runs', run_id ∷ order')
    ] in
    elim (lookup run_id runs) [
      | none ↦ some (runs, order)
      | some state ↦ if is_removable state then some (delete run_id runs, order) else later
    ]

-- The outer loop on fuel.
unfoldable pub prune_loop :
    ℕ → ℕ → Map Text RunEventState → List Text → Map Text RunEventState × List Text
prune_loop zero max_runs runs order = (runs, order)
prune_loop (suc fuel) max_runs runs order = elim (ltb max_runs (length runs)) [
  | true ↦ elim (remove_first runs order) [
    | none ↦ (runs, order)
    | some (runs', order') ↦ prune_loop fuel max_runs runs' order'
  ]
  | false ↦ (runs, order)
]

-- Each round takes an entry off the order, so its length is fuel enough.
unfoldable pub prune_runs :
    ℕ → Map Text RunEventState → List Text → Map Text RunEventState × List Text
prune_runs zero runs order = (runs, order)
prune_runs (suc max_runs) runs order = prune_loop (suc (length order)) (suc max_runs) runs order

-- Nothing is left for the loop to do.
abbrev pub IsPruned : ℕ → Map Text RunEventState → List Text → Type 0
IsPruned max_runs runs order = (length runs ≤ max_runs) ⊎ (remove_first runs order ≡ none)

remove_first-shorter :
    (runs : Map Text RunEventState) (order : List Text) (runs' : Map Text RunEventState)
    (order' : List Text)
    → remove_first runs order ≡ some (runs', order')
    → suc (length order') ≡ length order
unfolding remove_first
remove_first-shorter runs [] runs' order' e = cc
remove_first-shorter runs (run_id ∷ order) runs' order' e =
    elim (Option-cases (remove_first runs order)) [
      | inl last ↦ ground arith
      | inr ((later, rest), found) ↦
          ground (arith, remove_first-shorter runs order later rest found)
    ]

prune_loop-IsPruned :
    (fuel max_runs : ℕ) (runs : Map Text RunEventState) (order : List Text)
    → length order < fuel
    → IsPruned max_runs
        (prune_loop fuel max_runs runs order).0
        (prune_loop fuel max_runs runs order).1
unfolding prune_loop
prune_loop-IsPruned zero max_runs runs order h = elim h [ ]
prune_loop-IsPruned (suc fuel) max_runs runs order h =
    elim (Option-cases (remove_first runs order)) [
      | inl stop ↦ ground arith
      | inr ((runs', order'), found) ↦ ground (
        arith,
        remove_first-shorter runs order runs' order' found,
        prune_loop-IsPruned fuel max_runs runs' order',
      )
    ]

-- With a limit on the runs, pruning stops either within the limit or when no entry of the order can
-- go: the rounds that are left to it are enough.
pub prune_runs-IsPruned :
    (max_runs : ℕ) (runs : Map Text RunEventState) (order : List Text)
    → 1 ≤ max_runs
    → IsPruned max_runs (prune_runs max_runs runs order).0 (prune_runs max_runs runs order).1
unfolding prune_runs
prune_runs-IsPruned zero runs order h = absurd (omega arith)
prune_runs-IsPruned (suc max_runs) runs order h =
    prune_loop-IsPruned (suc (length order)) (suc max_runs) runs order (omega arith)

remove_first-keeps :
    (kept : Text) (state : RunEventState) (runs : Map Text RunEventState) (order : List Text)
    (runs' : Map Text RunEventState) (order' : List Text)
    → is_removable state ≡ false
    → lookup kept runs ≡ some state
    → remove_first runs order ≡ some (runs', order')
    → lookup kept runs' ≡ some state
unfolding remove_first
remove_first-keeps kept state runs [] runs' order' u l e = cc
remove_first-keeps kept state runs (run_id ∷ order) runs' order' u l e =
    elim (Option-cases (remove_first runs order)) [
      | inl last ↦ ground (arith, lookup-delete run_id kept runs, eq_iff run_id kept)
      | inr ((later, rest), found) ↦ ground (
        arith,
        lookup-delete run_id kept runs,
        eq_iff run_id kept,
        remove_first-keeps kept state runs order later rest u l found,
      )
    ]

prune_loop-keeps :
    (kept : Text) (state : RunEventState) (fuel max_runs : ℕ) (runs : Map Text RunEventState)
    (order : List Text)
    → is_removable state ≡ false
    → lookup kept runs ≡ some state
    → lookup kept (prune_loop fuel max_runs runs order).0 ≡ some state
unfolding prune_loop
prune_loop-keeps kept state zero max_runs runs order u l = l
prune_loop-keeps kept state (suc fuel) max_runs runs order u l =
    elim (Option-cases (remove_first runs order)) [
      | inl stop ↦ ground arith
      | inr ((runs', order'), found) ↦ ground (
        arith,
        remove_first-keeps kept state runs order runs' order' u l found,
        prune_loop-keeps kept state fuel max_runs runs' order' u,
      )
    ]

-- Pruning keeps every run that has not ended or that somebody listens to, with its state.
pub prune_runs-keeps :
    (kept : Text) (state : RunEventState) (max_runs : ℕ) (runs : Map Text RunEventState)
    (order : List Text)
    → is_removable state ≡ false
    → lookup kept runs ≡ some state
    → lookup kept (prune_runs max_runs runs order).0 ≡ some state
unfolding prune_runs
prune_runs-keeps kept state zero runs order u l = l
prune_runs-keeps kept state (suc max_runs) runs order u l =
    prune_loop-keeps kept state (suc (length order)) (suc max_runs) runs order u l
