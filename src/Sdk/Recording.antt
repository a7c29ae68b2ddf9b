-- ===== src/Sdk/Recording.antt =====
-- sdk/client.py: the wrappers of `RecordingClient`, with their queries of sdk/rpc_api.py.
use Prim.Native.String.{String}
use r2_labs.Base.{List, [], ◌∷◌, Option, none, some, ℕ, false}
use r2_labs.Sdk.Value.{flag, thousandths, member, optional, Value, DataClass, Request}

abbrev pub prepare_recording_query : DataClass
prepare_recording_query = record {
  name = "PrepareRecordingQuery";
  fields =
      optional "trajectory_type" (member "TrajectoryType.JOINT_ABSOLUTE")
      ∷ optional "trajectory_source" (member "TrajectorySource.ROBOT")
      ∷ optional "timeout_seconds" (thousandths 300000)
      ∷ optional "hold_until_start" (flag false)
      ∷ [];
}

abbrev pub prepare : Value → Value → Value → Value → Request
prepare trajectory_type trajectory_source timeout_seconds hold_until_start = record {
  fn_name = "recording.prepare";
  query = some (
    prepare_recording_query,
    ("trajectory_type", trajectory_type)
        ∷ ("trajectory_source", trajectory_source)
        ∷ ("timeout_seconds", timeout_seconds)
        ∷ ("hold_until_start", hold_until_start)
        ∷ [],
  );
  deadline = none;
  response = some "PrepareRecordingResponse";
}

abbrev pub start : Request
start = record {
  fn_name = "recording.start";
  query = none;
  deadline = none;
  response = some "StartRecordingResponse";
}

abbrev pub stop : Request
stop = record {
  fn_name = "recording.stop";
  query = none;
  deadline = none;
  response = some "StopRecordingResponse";
}

abbrev pub get_state : Request
get_state = record {
  fn_name = "recording.get_state";
  query = none;
  deadline = none;
  response = some "RecordingStateResponse";
}

-- Every request of these wrappers, for any arguments.
abbrev pub requests : (String → Value) → ℕ → Option ℕ → List Request
requests v n t =
    prepare (v "trajectory_type") (v "trajectory_source") (v "timeout_seconds")
      (v "hold_until_start")
    ∷ start
    ∷ stop
    ∷ get_state
    ∷ []
