-- ===== src/Decide/Examples.antt =====
-- Runs of the update decision.
use tidewaiter.Common.{◌≡◌, refl, ◌↔◌, false}
use tidewaiter.Decide.{Inputs, State, update, defer, pinned, image_words, unit_words, decide}
use tidewaiter.Decide.Policy.{Policy, decide-Policy}

abbrev settling : Inputs
settling = record {
  idle_samples = 3;
  current = "sha256:old";
  desired = "sha256:new";
  in_use = false;
  idle_streak = 2;
}

abbrev settled : Inputs
settled = record settling { idle_streak = 3 }

abbrev unpinned : State
unpinned = record { pinned = "" }

abbrev bad : State
bad = record { pinned = "sha256:new" }

settling_kind : (decide settling unpinned image_words).kind ≡ defer
unfolding decide
settling_kind = refl

settled_kind : (decide settled unpinned image_words).kind ≡ update
unfolding decide
settled_kind = refl

bad_kind : (decide settled bad unit_words).kind ≡ pinned
unfolding decide
bad_kind = refl

decide-Policy_example :
    ((decide settled unpinned image_words).kind ≡ update) ↔ Policy update settled unpinned
decide-Policy_example = decide-Policy settled unpinned image_words update
