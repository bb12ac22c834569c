-- ===== src/Samples/Starts.antt =====
-- New participants and their peers.
use bdls.Base.{◌≡◌, ◌≢◌, ◌≤◌, ◌↔◌, refl, some, ok, true, is_ok, is_ok-value_or, value_or, length}
use bdls.Consensus.State.{Consensus, Setup}
use bdls.Consensus.Config.{Functions, verify_config, new_consensus}
use bdls.Consensus.Starting.{Started, verify_config-ok, new_consensus-Started}
use bdls.Samples.Toy.{toy, toy_lib, toy_config, started}

abbrev functions : Functions
functions = record {
  compare = (toy 1).state_compare;
  validate = (toy 1).state_validate;
  key = (toy 1).private_key;
}

verify_config-ok_example : (verify_config toy_config ≡ ok functions) ↔ (
    (toy_config.epoch ≢ 0)
    × (toy_config.state_compare ≡ some functions.compare)
    × (toy_config.state_validate ≡ some functions.validate)
    × (toy_config.key ≡ some functions.key)
    × (4 ≤ length toy_config.participants))
verify_config-ok_example = verify_config-ok toy_config functions

abbrev nothing : Setup × Consensus
nothing = (toy 1, started 1)

abbrev made : Setup × Consensus
made = value_or nothing (new_consensus toy_lib toy_config)

is_made : is_ok (new_consensus toy_lib toy_config) ≡ true
unfolding new_consensus verify_config
is_made = refl

new_consensus-Started_example : Started toy_config made
new_consensus-Started_example =
    new_consensus-Started toy_lib toy_config made (is_ok-value_or nothing _ is_made)
