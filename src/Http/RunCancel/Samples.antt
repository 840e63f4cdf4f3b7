-- ===== src/Http/RunCancel/Samples.antt =====
-- The tracker at concrete runs.
use openclawssy.Base.{
  ◌≡◌, refl, some, [], codes, text_beq, text_eq, trim, trim_left, trim_right, is_space, contains,
  if◌then◌else◌,
}
use openclawssy.Http.RunCancel.{track_composite, cancel_composite, tracked_run_key}
use openclawssy.Http.RunCancel.Isolation.{
  IsNamed, same_run, tracked_run_key_apart, cancel-track_composite,
}

one-IsNamed : IsNamed (codes " one ") (codes "main")
unfolding trim trim_left trim_right is_space codes text_beq contains
one-IsNamed = record { named = refl; instance_plain = refl; agent_plain = refl }

two-IsNamed : IsNamed (codes "two") (codes "main")
unfolding trim trim_left trim_right is_space codes text_beq contains
two-IsNamed = record { named = refl; instance_plain = refl; agent_plain = refl }

plain-IsNamed : IsNamed (codes "one") (codes "main")
unfolding trim trim_left trim_right is_space codes text_beq contains
plain-IsNamed = record { named = refl; instance_plain = refl; agent_plain = refl }

same_key :
    tracked_run_key (codes " one ") (codes "main") (codes "r:1")
    ≡ tracked_run_key (codes "one") (codes "main") (codes "r:1")
unfolding tracked_run_key trim trim_left trim_right is_space codes text_beq
same_key = refl

tracked_run_key_apart_example :
    (trim (codes " one ") ≡ trim (codes "one"))
    × (trim (codes "main") ≡ trim (codes "main"))
    × (trim (codes "r:1") ≡ trim (codes "r:1"))
tracked_run_key_apart_example =
    tracked_run_key_apart (codes " one ") (codes "main") (codes "r:1") (codes "one") (codes "main")
      (codes "r:1") one-IsNamed plain-IsNamed same_key

cancel-track_composite_example :
    cancel_composite
      (codes "two")
      (codes "main")
      (codes "r")
      (track_composite (codes " one ") (codes "main") (codes "r") (some 7) [])
    ≡ (if same_run
          (codes " one ")
          (codes "main")
          (codes "r")
          (codes "two")
          (codes "main")
          (codes "r")
        then some 7
        else cancel_composite (codes "two") (codes "main") (codes "r") [])
cancel-track_composite_example =
    cancel-track_composite (codes " one ") (codes "main") (codes "r") (codes "two") (codes "main")
      (codes "r") 7 [] one-IsNamed two-IsNamed
