-- ===== src/Tests/Journal.antt =====
-- Runs and instances for worker_journal.py and worker_outputs.py.
use simmis.Prelude.{◌≡◌, refl, true, some, [], ◌∷◌, ok, err, value_error, list_beq}
use simmis.Value.{keys, Dict, lookup, Text, text, Value, dict, index}
use simmis.Files.{Directory}
use simmis.Journal.Chain.{chain, Chain, advance}
use simmis.Tests.Runs.{
  run_host, launch_record, admitted_record, stopped_record, acknowledged_record, at_launch, at_stop,
  finished, receipt, output, delivered, written,
}
use simmis.Tests.Sample.{raw_of, string, frozen, config, host}
use simmis.Paths.{split, is_refused, join}
use simmis.Journal.Chain.Linked.{IsLinked, chain-IsLinked}
use simmis.Journal.Publish.{publish, staged_name}
use simmis.Files.Laws.{KeepsFile, Leaves}
use simmis.Journal.Publish.Immutable.{publish-keeps}
use simmis.Journal.Publish.Published.{IsPublished, publish-IsPublished}
use simmis.Journal.Records.{launch, acknowledged, phase_name, file_name}
use simmis.Journal.Validate.{validate_acknowledged}
use simmis.Journal.Validate.Outcome.{IsAcknowledged, validate_acknowledged-IsAcknowledged}
use simmis.Outputs.Written.{is_unique}
use simmis.Outputs.Accepted.{IsOutput, validate-IsOutput}
use simmis.Outputs

abbrev full : Chain
full = record {
  launched = some launch_record;
  admission = some admitted_record;
  sealed = some stopped_record;
  receipt = some acknowledged_record;
}

accepted_chain : chain run_host finished ≡ ok full
unfolding chain raw_of is_refused join
accepted_chain = refl

chain-IsLinked_example :
    IsLinked run_host
      (some launch_record)
      (some admitted_record)
      (some stopped_record)
      (some acknowledged_record)
chain-IsLinked_example = chain-IsLinked run_host finished accepted_chain

-- Nobody else writes, or another process has published the acknowledgment in between.
abbrev alone : Directory → Directory
alone d = d

abbrev winner : Directory → Directory
winner d = (text "acknowledged.json", written "acknowledged") ∷ d

abbrev nonce : Text
nonce = text "0"

raced :
    (publish run_host winner nonce (phase_name acknowledged) acknowledged_record at_stop).0
    ≡ ok acknowledged_record
unfolding publish raw_of index list_beq
raced = refl

left_by_winner : Leaves winner (staged_name nonce)
unfolding staged_name lookup list_beq
left_by_winner = record { left = λ d f h. h }

publish-IsPublished_example :
    IsPublished run_host acknowledged acknowledged_record acknowledged_record
      (publish run_host winner nonce (phase_name acknowledged) acknowledged_record at_stop).1
publish-IsPublished_example =
    publish-IsPublished run_host winner nonce acknowledged acknowledged_record at_stop
      left_by_winner raced

launch_there : lookup (file_name (phase_name launch)) at_stop ≡ some (written "launch")
unfolding lookup file_name list_beq
launch_there = refl

kept_alone : KeepsFile alone (file_name (phase_name launch)) (written "launch")
kept_alone = record { kept = λ d h. h }

publish-keeps_example :
    lookup
      (file_name (phase_name launch))
      (publish run_host alone nonce (text "acknowledged") acknowledged_record at_stop).1
    ≡ some (written "launch")
publish-keeps_example =
    publish-keeps run_host alone nonce (text "acknowledged") acknowledged_record launch at_stop
      (written "launch") kept_alone launch_there

abbrev acknowledgment : Dict
acknowledgment = (text "outcome", string "completed") ∷ (text "receipt", receipt) ∷ []

-- A phase needs the one before it.
too_early : (advance run_host alone nonce acknowledged acknowledgment at_launch).0 ≡ err value_error
unfolding advance raw_of is_refused join
too_early = refl

acknowledged_there :
    validate_acknowledged run_host acknowledged_record launch_record stopped_record ≡ ok tt
unfolding validate_acknowledged
acknowledged_there = refl

validate_acknowledged-IsAcknowledged_example :
    IsAcknowledged acknowledged_record launch_record stopped_record
validate_acknowledged-IsAcknowledged_example =
    validate_acknowledged-IsAcknowledged run_host acknowledged_record launch_record stopped_record
      acknowledged_there

accepted_output : Outputs.validate host frozen config output ≡ ok output
unfolding Outputs.validate is_refused join split
accepted_output = refl

unique_paths : is_unique (keys delivered) ≡ true
unfolding is_unique keys list_beq
unique_paths = refl

stated_paths : index output (text "files") ≡ ok (dict delivered)
unfolding index list_beq
stated_paths = refl

validate-IsOutput_example : (output ≡ output) × IsOutput host frozen delivered
validate-IsOutput_example =
    validate-IsOutput host frozen config output delivered unique_paths stated_paths accepted_output
