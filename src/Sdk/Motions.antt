-- ===== src/Sdk/Motions.antt =====
-- sdk/client.py: what the methods of `BehaviourClient` submit.
use Prim.Native.String.{String}
use r2_labs.Base.{ℕ, Option, none}
use r2_labs.Futures.State.{ArmSelection}
use r2_labs.Sdk.Value.{Keywords, Value, Request}
use r2_labs.Sdk.Behaviour.{
  initiate_execute_learned_behavior, initiate_trajectory_motion, initiate_visual_pose_motion,
  initiate_visual_trajectory_motion, initiate_open_gripper, initiate_close_gripper,
  initiate_go_to_joints, initiate_go_to_pose, initiate_go_to_neutral_pose,
  initiate_align_leader_with_follower, initiate_joint_zeroing, initiate_hold_still,
  initiate_wait_for_object,
}

-- The arguments of `_submit_behaviour`: the call that `initiate_fn` makes, and the others. A timeout is
-- in milliseconds.
pub record Submission : Type 0 where
  pub initiate : Request
  pub timeout : Option ℕ
  pub arm : ArmSelection
  pub behaviour_type : String

abbrev pub trajectory_motion :
    Value
    → Option ℕ
    → ArmSelection
    → Value
    → Value
    → Value
    → Value
    → Value
    → Value
    → Value
    → Value
    → Value
    → Submission
trajectory_motion trajectory_name timeout arm speed motion_type static_gripper go_to_duration
      steady_pacing allowance_factor max_linear_error max_angular_error controller =
    record {
      initiate =
          initiate_trajectory_motion trajectory_name speed motion_type static_gripper go_to_duration
            steady_pacing allowance_factor max_linear_error max_angular_error controller;
      timeout = timeout;
      arm = arm;
      behaviour_type = "trajectory_motion";
    }

abbrev pub visual_pose_motion : Value → Value → Option ℕ → ArmSelection → Value → Value → Submission
visual_pose_motion visual_pose_name period_seconds timeout arm max_linear_error max_angular_error =
    record {
      initiate =
          initiate_visual_pose_motion visual_pose_name period_seconds max_linear_error
            max_angular_error;
      timeout = timeout;
      arm = arm;
      behaviour_type = "visual_pose_motion";
    }

abbrev pub visual_trajectory_motion :
    Value
    → Option ℕ
    → ArmSelection
    → Value
    → Value
    → Value
    → Value
    → Value
    → Value
    → Value
    → Value
    → Submission
visual_trajectory_motion visual_trajectory_name timeout arm static_gripper steady_pacing
      allowance_factor motion_type max_linear_error max_angular_error max_consecutive_missed_matches
      speed =
    record {
      initiate =
          initiate_visual_trajectory_motion visual_trajectory_name static_gripper steady_pacing
            allowance_factor motion_type max_linear_error max_angular_error
            max_consecutive_missed_matches speed;
      timeout = timeout;
      arm = arm;
      behaviour_type = "visual_trajectory_motion";
    }

abbrev pub open_gripper : Value → Option ℕ → ArmSelection → Submission
open_gripper target_position timeout arm = record {
  initiate = initiate_open_gripper target_position;
  timeout = timeout;
  arm = arm;
  behaviour_type = "open_gripper";
}

abbrev pub close_gripper : Value → Option ℕ → ArmSelection → Submission
close_gripper target_position timeout arm = record {
  initiate = initiate_close_gripper target_position;
  timeout = timeout;
  arm = arm;
  behaviour_type = "close_gripper";
}

abbrev pub go_to_joints : Value → Option ℕ → ArmSelection → Submission
go_to_joints configuration timeout arm = record {
  initiate = initiate_go_to_joints configuration;
  timeout = timeout;
  arm = arm;
  behaviour_type = "behaviour";
}

abbrev pub go_to_pose : Value → Value → Value → Option ℕ → ArmSelection → Submission
go_to_pose position rotation rotation_tolerance timeout arm = record {
  initiate = initiate_go_to_pose position rotation rotation_tolerance;
  timeout = timeout;
  arm = arm;
  behaviour_type = "go_to_pose";
}

abbrev pub go_to_neutral_pose : Option ℕ → ArmSelection → Submission
go_to_neutral_pose timeout arm = record {
  initiate = initiate_go_to_neutral_pose;
  timeout = timeout;
  arm = arm;
  behaviour_type = "go_to_neutral_pose";
}

abbrev pub align_leader_with_follower : Value → Value → Value → Option ℕ → ArmSelection → Submission
align_leader_with_follower timeout_seconds threshold period_seconds timeout arm = record {
  initiate = initiate_align_leader_with_follower timeout_seconds threshold period_seconds;
  timeout = timeout;
  arm = arm;
  behaviour_type = "align_leader_with_follower";
}

abbrev pub joint_zeroing : Value → ArmSelection → Submission
joint_zeroing timeout_seconds arm = record {
  initiate = initiate_joint_zeroing timeout_seconds;
  timeout = none;
  arm = arm;
  behaviour_type = "joint_zeroing";
}

abbrev pub hold_still : Value → ArmSelection → Submission
hold_still timeout_seconds arm = record {
  initiate = initiate_hold_still timeout_seconds;
  timeout = none;
  arm = arm;
  behaviour_type = "hold_still";
}

abbrev pub wait_for_object : Value → Value → ArmSelection → Submission
wait_for_object object_names timeout_seconds arm = record {
  initiate = initiate_wait_for_object object_names timeout_seconds;
  timeout = none;
  arm = arm;
  behaviour_type = "wait_for_object";
}

-- `query` is what the dataclass of the caller's query gets.
abbrev pub execute_learned_behavior : Keywords → Option ℕ → ArmSelection → Submission
execute_learned_behavior query timeout arm = record {
  initiate = initiate_execute_learned_behavior query;
  timeout = timeout;
  arm = arm;
  behaviour_type = "execute_learned_behavior";
}
