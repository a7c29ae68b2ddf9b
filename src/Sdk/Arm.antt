-- ===== src/Sdk/Arm.antt =====
-- sdk/client.py: the methods of `ArmClient`, which name its arm.
use Prim.Native.String.{String}
use r2_labs.Base.{ℕ, List, [], ◌∷◌, Option}
use r2_labs.Futures.State.{ArmSelection}
use r2_labs.Sdk.Value.{Value, null, Request}
use r2_labs.Sdk.Motions
use r2_labs.Sdk.Motions.{Submission}
use r2_labs.Sdk.Query

-- `side` is the client's `_arm`.
module _ (side : ArmSelection) where
  abbrev pub trajectory_motion :
      Value
      → Option ℕ
      → Value
      → Value
      → Value
      → Value
      → Value
      → Value
      → Value
      → Value
      → Value
      → Submission
  trajectory_motion trajectory_name timeout speed motion_type static_gripper go_to_duration
        steady_pacing allowance_factor max_linear_error max_angular_error controller =
      Motions.trajectory_motion trajectory_name timeout side speed motion_type static_gripper
        go_to_duration steady_pacing allowance_factor max_linear_error max_angular_error controller

  abbrev pub visual_pose_motion : Value → Value → Option ℕ → Value → Value → Submission
  visual_pose_motion visual_pose_name period_seconds timeout max_linear_error max_angular_error =
      Motions.visual_pose_motion visual_pose_name period_seconds timeout side max_linear_error
        max_angular_error

  abbrev pub visual_trajectory_motion :
      Value → Option ℕ → Value → Value → Value → Value → Value → Value → Value → Value → Submission
  visual_trajectory_motion visual_trajectory_name timeout static_gripper steady_pacing
        allowance_factor motion_type max_linear_error max_angular_error
        max_consecutive_missed_matches speed =
      Motions.visual_trajectory_motion visual_trajectory_name timeout side static_gripper
        steady_pacing allowance_factor motion_type max_linear_error max_angular_error
        max_consecutive_missed_matches speed

  abbrev pub open_gripper : Value → Option ℕ → Submission
  open_gripper target_position timeout = Motions.open_gripper target_position timeout side

  abbrev pub close_gripper : Value → Option ℕ → Submission
  close_gripper target_position timeout = Motions.close_gripper target_position timeout side

  abbrev pub go_to_pose : Value → Value → Value → Option ℕ → Submission
  go_to_pose position rotation rotation_tolerance timeout =
      Motions.go_to_pose position rotation rotation_tolerance timeout side

  abbrev pub go_to_neutral_pose : Option ℕ → Submission
  go_to_neutral_pose timeout = Motions.go_to_neutral_pose timeout side

  abbrev pub align_leader_with_follower : Value → Value → Value → Option ℕ → Submission
  align_leader_with_follower timeout_seconds threshold period_seconds timeout =
      Motions.align_leader_with_follower timeout_seconds threshold period_seconds timeout side

  abbrev pub wait_for_object : Value → Value → Submission
  wait_for_object object_names timeout_seconds =
      Motions.wait_for_object object_names timeout_seconds side

  abbrev pub hold_still : Value → Submission
  hold_still timeout_seconds = Motions.hold_still timeout_seconds side

  -- The only method that is no motion: it takes no arm.
  abbrev pub can_see_object : Value → ℕ → Request
  can_see_object object_names timeout_seconds =
      Query.can_see_object object_names timeout_seconds null

  -- Every submission of these methods, for any arguments.
  abbrev pub submissions : (String → Value) → Option ℕ → List Submission
  submissions v t =
      trajectory_motion (v "trajectory_name") t (v "speed") (v "motion_type") (v "static_gripper")
        (v "go_to_duration") (v "steady_pacing") (v "allowance_factor") (v "max_linear_error")
        (v "max_angular_error") (v "controller")
      ∷ visual_pose_motion (v "visual_pose_name") (v "period_seconds") t (v "max_linear_error")
          (v "max_angular_error")
      ∷ visual_trajectory_motion (v "visual_trajectory_name") t (v "static_gripper")
          (v "steady_pacing") (v "allowance_factor") (v "motion_type") (v "max_linear_error")
          (v "max_angular_error") (v "max_consecutive_missed_matches") (v "speed")
      ∷ open_gripper (v "target_position") t
      ∷ close_gripper (v "target_position") t
      ∷ go_to_pose (v "position") (v "rotation") (v "rotation_tolerance") t
      ∷ go_to_neutral_pose t
      ∷ align_leader_with_follower (v "timeout_seconds") (v "threshold") (v "period_seconds") t
      ∷ wait_for_object (v "object_names") (v "timeout_seconds")
      ∷ hold_still (v "timeout_seconds")
      ∷ []
