-- ===== src/Extensions/Runs.antt =====
-- Any calls of `enable`, `disable` and `uninstall` of the lifecycle manager, one after another, from a
-- store that holds what was installed and a registry that publishes nothing.
use nju_personal_assistant.Base.{String, List, [], ◌∷◌, Dict}
use nju_personal_assistant.Extensions.Registry.{ExtensionRecord}
use nju_personal_assistant.Extensions.Lifecycle.{enable, disable, uninstall}
use nju_personal_assistant.Extensions.Ports.{World, Ports}

pub data Command : Type 0 where
  enable_call disable_call uninstall_call : String → Command

module _ (ports : Ports) where
  -- What the call wrote, whether it returned or raised
  unfoldable pub step : Command → World → World
  unfolding enable disable uninstall
  step (enable_call i) w = (enable ports i w).1
  step (disable_call i) w = (disable ports i w).1
  step (uninstall_call i) w = (uninstall ports i w).1

  unfoldable pub run : List Command → World → World
  unfolding step
  run [] w = w
  run (c ∷ commands) w = run commands (step c w)

abbrev pub fresh_world : Dict String ExtensionRecord → World
fresh_world records = record {
  records = records;
  registry = record { generation = 0; extensions = []; capabilities = [] };
  touched = [];
  calls = 0;
}
