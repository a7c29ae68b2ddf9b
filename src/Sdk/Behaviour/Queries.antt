-- ===== src/Sdk/Behaviour/Queries.antt =====
-- sdk/rpc_api.py: the queries of `BehaviourClient`.
use r2_labs.Base.{[], ◌∷◌, false}
use r2_labs.Sdk.Value.{DataClass, flag, member, null, number, optional, required, str, thousandths}

abbrev pub trajectory_motion_query : DataClass
trajectory_motion_query = record {
  name = "TrajectoryMotionQuery";
  fields =
      required "trajectory_name"
      ∷ optional "speed" (thousandths 1000)
      ∷ optional "motion_type" (member "TrajectoryMotionType.FULL")
      ∷ optional "static_gripper" (flag false)
      ∷ optional "go_to_duration" null
      ∷ optional "steady_pacing" (flag false)
      ∷ optional "allowance_factor" (thousandths 1000)
      ∷ optional "max_linear_error" (thousandths 50)
      ∷ optional "max_angular_error" (thousandths 200)
      ∷ optional "controller" (member "JointPositionsController.RUCKIG")
      ∷ [];
}

abbrev pub visual_pose_motion_query : DataClass
visual_pose_motion_query = record {
  name = "VisualPoseMotionQuery";
  fields =
      required "visual_pose_name"
      ∷ required "period_seconds"
      ∷ optional "max_linear_error" (thousandths 50)
      ∷ optional "max_angular_error" (thousandths 100)
      ∷ [];
}

abbrev pub visual_trajectory_motion_query : DataClass
visual_trajectory_motion_query = record {
  name = "VisualTrajectoryMotionQuery";
  fields =
      required "visual_trajectory_name"
      ∷ optional "speed" (thousandths 1000)
      ∷ optional "motion_type" (member "TrajectoryMotionType.FULL")
      ∷ optional "static_gripper" (flag false)
      ∷ optional "steady_pacing" (flag false)
      ∷ optional "allowance_factor" (thousandths 1000)
      ∷ optional "max_linear_error" (thousandths 50)
      ∷ optional "max_angular_error" (thousandths 200)
      ∷ optional "max_consecutive_missed_matches" (null)
      ∷ [];
}

abbrev pub open_gripper_query : DataClass
open_gripper_query = record {
  name = "OpenGripperQuery";
  fields = optional "target_position" (thousandths 100) ∷ [];
}

abbrev pub close_gripper_query : DataClass
close_gripper_query = record {
  name = "CloseGripperQuery";
  fields = optional "target_position" (thousandths 0) ∷ [];
}

abbrev pub go_to_joints_query : DataClass
go_to_joints_query = record { name = "GoToJointsQuery"; fields = required "configuration" ∷ [] }

abbrev pub go_to_pose_query : DataClass
go_to_pose_query = record {
  name = "GoToPoseQuery";
  fields = required "position" ∷ required "rotation" ∷ optional "rotation_tolerance" null ∷ [];
}

abbrev pub go_to_neutral_pose_query : DataClass
go_to_neutral_pose_query = record { name = "GoToNeutralPoseQuery"; fields = [] }

abbrev pub align_leader_with_follower_query : DataClass
align_leader_with_follower_query = record {
  name = "AlignLeaderWithFollowerQuery";
  fields =
      optional "timeout_seconds" (thousandths 5000)
      ∷ optional "threshold" (thousandths 100)
      ∷ optional "period_seconds" (thousandths 0)
      ∷ [];
}

abbrev pub joint_zeroing_query : DataClass
joint_zeroing_query = record {
  name = "JointZeroingQuery";
  fields = optional "timeout_seconds" (thousandths 360000) ∷ [];
}

abbrev pub hold_still_query : DataClass
hold_still_query = record { name = "HoldStillQuery"; fields = required "timeout_seconds" ∷ [] }

abbrev pub wait_for_object_query : DataClass
wait_for_object_query = record {
  name = "WaitForObjectQuery";
  fields = required "object_names" ∷ optional "timeout_seconds" null ∷ [];
}

abbrev pub ticket_status_query : DataClass
ticket_status_query = record { name = "TicketStatusQuery"; fields = required "ticket_id" ∷ [] }

abbrev pub ticket_logs_query : DataClass
ticket_logs_query = record {
  name = "TicketLogsQuery";
  fields = required "ticket_id" ∷ optional "since_index" (number 0) ∷ [];
}

abbrev pub list_tickets_query : DataClass
list_tickets_query = record { name = "ListTicketsQuery"; fields = [] }

abbrev pub replay_notebook_cells_query : DataClass
replay_notebook_cells_query = record {
  name = "ReplayNotebookCellsQuery";
  fields = required "ticket_ids" ∷ [];
}

abbrev pub render_sequence_script_query : DataClass
render_sequence_script_query = record {
  name = "RenderSequenceScriptQuery";
  fields = required "steps" ∷ optional "host" (str "localhost") ∷ [];
}

abbrev pub execute_learned_behavior_query : DataClass
execute_learned_behavior_query = record {
  name = "ExecuteLearnedBehaviorQuery";
  fields =
      optional "model_id" (str "")
      ∷ optional "service_address" (str "")
      ∷ optional "in_process_inference" (flag false)
      ∷ optional "timeout_seconds" null
      ∷ optional "obs_history_len" (number 1)
      ∷ optional "buffer_actions" (number 20)
      ∷ optional "action_offset" (number 0)
      ∷ optional "action_key" (str "action")
      ∷ optional "inference_seed" (member "InferenceSeedBehavior.CONSTANT")
      ∷ optional "task" (str "")
      ∷ optional "allow_spacenav_takeover" (flag false)
      ∷ [];
}
