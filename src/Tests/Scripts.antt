-- ===== src/Tests/Scripts.antt =====
-- A script that is generated and run.
use cs4730_collaborative_tex.Base.{
  ℕ, ◌+◌, ◌*◌, ◌^◌, ◌≡◌, refl, false, List, [], ◌∷◌, none, some, arith, length,
}
use cs4730_collaborative_tex.Base.Int.{pos}
use cs4730_collaborative_tex.Rga.{new_engine, document}
use cs4730_collaborative_tex.Rga.Invariant.{new_engine-IsValid}
use cs4730_collaborative_tex.Pipeline.{Pipeline}
use cs4730_collaborative_tex.Script.{Rng, Options, Command, generate, prob_in_range, script_text}
use cs4730_collaborative_tex.Script.Replay.{replay}
use cs4730_collaborative_tex.Headless.{ended, run_headless}
use cs4730_collaborative_tex.Headless.Running.{Holds}
use cs4730_collaborative_tex.Headless.Generated.{run_headless-generate}

-- A generator that counts down to the lower bound and up again.
abbrev counter : Rng
counter = record {
  State = ℕ;
  seeded = λ _. 3;
  random = λ s. (s * 2 ^ 51, s + 1);
  randint = λ s high. (high, s + 1);
  randint-le = λ s high. omega arith;
}

abbrev options : Options
options = record {
  ops = pos 4;
  prob_num = pos 7;
  prob_den = 10;
  peer_id = pos 1;
  seed = none;
  start_delay = pos 0;
  batch = pos 2;
  sleep_ms = pos 100;
  drain_ms = pos 500;
}

abbrev empty_pipeline : Pipeline
empty_pipeline = record {
  engine = new_engine 1;
  outgoing = [];
  syncing = false;
  sync_buffer = [];
  pending = [];
  known = 1 ∷ [];
}

empty-Holds : Holds [] empty_pipeline
unfolding document
empty-Holds = record { valid = new_engine-IsValid 1; text = refl }

run_headless-generate_example :
    (cs : List Command) × (r : List ℕ) × (p' : Pipeline) × (generate counter options ≡ some cs)
    × (replay cs [] ≡ some r)
    × (run_headless (script_text cs) empty_pipeline ≡ ended p' r)
    × Holds r p'
    × (length p'.outgoing ≡ 4 + 0)
unfolding prob_in_range
run_headless-generate_example =
    run_headless-generate counter options empty_pipeline refl (omega arith) (omega arith)
      (omega arith) (omega arith) empty-Holds
