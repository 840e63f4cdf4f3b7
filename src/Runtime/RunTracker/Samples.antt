-- ===== src/Runtime/RunTracker/Samples.antt =====
-- The runtime's tracker at concrete runs.
use openclawssy.Base.{
  ◌≡◌, refl, codes, text_beq, text_eq, trim, trim_left, trim_right, is_space, contains,
}
use openclawssy.Runtime.RunTracker.{composite_run_key}
use openclawssy.Runtime.RunTracker.Composite.{IsWhole, composite_run_key_apart}

spaced-IsWhole : IsWhole (codes " one ") (codes "main") (codes "r")
unfolding trim trim_left trim_right is_space codes text_beq contains
spaced-IsWhole = record {
  instance_named = refl;
  agent_named = refl;
  run_named = refl;
  instance_plain = refl;
  agent_plain = refl;
}

plain-IsWhole : IsWhole (codes "one") (codes "main") (codes "r")
unfolding trim trim_left trim_right is_space codes text_beq contains
plain-IsWhole = record {
  instance_named = refl;
  agent_named = refl;
  run_named = refl;
  instance_plain = refl;
  agent_plain = refl;
}

equal_keys :
    composite_run_key (codes " one ") (codes "main") (codes "r")
    ≡ composite_run_key (codes "one") (codes "main") (codes "r")
unfolding composite_run_key trim trim_left trim_right is_space codes text_beq
equal_keys = refl

composite_run_key_apart_example :
    (trim (codes " one ") ≡ trim (codes "one"))
    × (trim (codes "main") ≡ trim (codes "main"))
    × (trim (codes "r") ≡ trim (codes "r"))
composite_run_key_apart_example =
    composite_run_key_apart (codes " one ") (codes "main") (codes "r") (codes "one") (codes "main")
      (codes "r") spaced-IsWhole plain-IsWhole equal_keys
