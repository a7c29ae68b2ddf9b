-- ===== src/Sdk/RawRobot.antt =====
-- sdk/client.py: the wrappers of `RawRobotClient`, with their queries of sdk/rpc_api.py.
use Prim.Native.String.{String}
use r2_labs.Base.{List, [], ◌∷◌, Option, none, some, ℕ}
use r2_labs.Sdk.Value.{required, Value, DataClass, Request}

abbrev pub camera_query : DataClass
camera_query = record { name = "CameraQuery"; fields = required "camera" ∷ [] }

abbrev pub joint_torque_coefficient_query : DataClass
joint_torque_coefficient_query = record {
  name = "JointTorqueCoefficientQuery";
  fields = required "arm_type" ∷ [];
}

abbrev pub get_camera_data : Value → Request
get_camera_data camera = record {
  fn_name = "raw_robot.get_camera_data";
  query = some (camera_query, ("camera", camera) ∷ []);
  deadline = none;
  response = some "CameraQueryResponse";
}

abbrev pub get_proprio_data : Request
get_proprio_data = record {
  fn_name = "raw_robot.get_proprio_data";
  query = none;
  deadline = none;
  response = some "ArmStateQueryResponse";
}

abbrev pub get_button_peripherals : Request
get_button_peripherals = record {
  fn_name = "raw_robot.get_button_peripherals";
  query = none;
  deadline = none;
  response = some "ButtonPeripheralQueryResponse";
}

abbrev pub get_joint_torque_coefficients : Value → Request
get_joint_torque_coefficients arm = record {
  fn_name = "raw_robot.get_joint_torque_coefficients";
  query = some (joint_torque_coefficient_query, ("arm_type", arm) ∷ []);
  deadline = none;
  response = some "JointTorqueCoefficientQueryResponse";
}

-- Every request of these wrappers, for any arguments.
abbrev pub requests : (String → Value) → ℕ → Option ℕ → List Request
requests v n t =
    get_camera_data (v "camera")
    ∷ get_proprio_data
    ∷ get_button_peripherals
    ∷ get_joint_torque_coefficients (v "arm")
    ∷ []
