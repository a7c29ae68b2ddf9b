-- ===== src/Sdk/Behaviour.antt =====
-- sdk/client.py: the wrappers of `BehaviourClient`.
pub mod Queries
use Prim.Native.String.{String}
use r2_labs.Base.{List, [], ◌∷◌, Option, none, some, ℕ, true, false}
use r2_labs.Sdk.Value.{
  DataClass, Keywords, Request, Value, as_array, as_list, if_given, optional, required,
}
use r2_labs.Sdk.Column.{cancel_ticket_query}
use r2_labs.Sdk.Behaviour.Queries.{
  execute_learned_behavior_query, align_leader_with_follower_query, close_gripper_query,
  go_to_joints_query, go_to_neutral_pose_query, go_to_pose_query, hold_still_query,
  joint_zeroing_query, list_tickets_query, open_gripper_query, render_sequence_script_query,
  replay_notebook_cells_query, ticket_logs_query, ticket_status_query, trajectory_motion_query,
  visual_pose_motion_query, visual_trajectory_motion_query, wait_for_object_query,
}

abbrev pub cancel_behaviour : Value → Request
cancel_behaviour ticket_id = record {
  fn_name = "behaviour.cancel_ticket";
  query = some (cancel_ticket_query, ("ticket_id", ticket_id) ∷ []);
  deadline = none;
  response = some "CancelTicketResponse";
}

abbrev pub initiate_trajectory_motion :
    Value → Value → Value → Value → Value → Value → Value → Value → Value → Value → Request
initiate_trajectory_motion trajectory_name speed motion_type static_gripper go_to_duration
      steady_pacing allowance_factor max_linear_error max_angular_error controller =
    record {
      fn_name = "behaviour.trajectory_motion";
      query = some (
        trajectory_motion_query,
        ("trajectory_name", trajectory_name)
            ∷ ("speed", speed)
            ∷ ("motion_type", motion_type)
            ∷ ("static_gripper", static_gripper)
            ∷ ("go_to_duration", go_to_duration)
            ∷ ("steady_pacing", steady_pacing)
            ∷ ("allowance_factor", allowance_factor)
            ∷ ("max_linear_error", max_linear_error)
            ∷ ("max_angular_error", max_angular_error)
            ∷ ("controller", controller)
            ∷ [],
      );
      deadline = none;
      response = some "BehaviourInitiatedResponse";
    }

abbrev pub initiate_visual_pose_motion : Value → Value → Value → Value → Request
initiate_visual_pose_motion visual_pose_name period_seconds max_linear_error max_angular_error =
    record {
      fn_name = "behaviour.visual_pose_motion";
      query = some (
        visual_pose_motion_query,
        ("visual_pose_name", visual_pose_name)
            ∷ ("period_seconds", period_seconds)
            ∷ ("max_linear_error", max_linear_error)
            ∷ ("max_angular_error", max_angular_error)
            ∷ [],
      );
      deadline = none;
      response = some "BehaviourInitiatedResponse";
    }

abbrev pub initiate_visual_trajectory_motion :
    Value → Value → Value → Value → Value → Value → Value → Value → Value → Request
initiate_visual_trajectory_motion visual_trajectory_name static_gripper steady_pacing
      allowance_factor motion_type max_linear_error max_angular_error max_consecutive_missed_matches
      speed =
    record {
      fn_name = "behaviour.visual_trajectory_motion";
      query = some (
        visual_trajectory_motion_query,
        ("visual_trajectory_name", visual_trajectory_name)
            ∷ ("speed", speed)
            ∷ ("motion_type", motion_type)
            ∷ ("static_gripper", static_gripper)
            ∷ ("steady_pacing", steady_pacing)
            ∷ ("allowance_factor", allowance_factor)
            ∷ ("max_linear_error", max_linear_error)
            ∷ ("max_angular_error", max_angular_error)
            ∷ ("max_consecutive_missed_matches", max_consecutive_missed_matches)
            ∷ [],
      );
      deadline = none;
      response = some "BehaviourInitiatedResponse";
    }

abbrev pub initiate_open_gripper : Value → Request
initiate_open_gripper target_position = record {
  fn_name = "behaviour.open_gripper";
  query =
      some (
        open_gripper_query,
        if_given target_position (("target_position", target_position) ∷ []) [],
      );
  deadline = none;
  response = some "BehaviourInitiatedResponse";
}

abbrev pub initiate_close_gripper : Value → Request
initiate_close_gripper target_position = record {
  fn_name = "behaviour.close_gripper";
  query = some (
    close_gripper_query,
    if_given target_position (("target_position", target_position) ∷ []) [],
  );
  deadline = none;
  response = some "BehaviourInitiatedResponse";
}

abbrev pub initiate_go_to_joints : Value → Request
initiate_go_to_joints configuration = record {
  fn_name = "behaviour.go_to_joints";
  query = some (go_to_joints_query, ("configuration", as_array configuration) ∷ []);
  deadline = none;
  response = some "BehaviourInitiatedResponse";
}

abbrev pub initiate_go_to_pose : Value → Value → Value → Request
initiate_go_to_pose position rotation rotation_tolerance = record {
  fn_name = "behaviour.go_to_pose";
  query = some (
    go_to_pose_query,
    ("position", as_array position)
        ∷ ("rotation", as_array rotation)
        ∷ ("rotation_tolerance", rotation_tolerance)
        ∷ [],
  );
  deadline = none;
  response = some "BehaviourInitiatedResponse";
}

abbrev pub initiate_go_to_neutral_pose : Request
initiate_go_to_neutral_pose = record {
  fn_name = "behaviour.go_to_neutral_pose";
  query = some (go_to_neutral_pose_query, []);
  deadline = none;
  response = some "BehaviourInitiatedResponse";
}

abbrev pub initiate_align_leader_with_follower : Value → Value → Value → Request
initiate_align_leader_with_follower timeout_seconds threshold period_seconds = record {
  fn_name = "behaviour.align_leader_with_follower";
  query = some (
    align_leader_with_follower_query,
    ("timeout_seconds", timeout_seconds)
        ∷ ("threshold", threshold)
        ∷ ("period_seconds", period_seconds)
        ∷ [],
  );
  deadline = none;
  response = some "BehaviourInitiatedResponse";
}

abbrev pub initiate_joint_zeroing : Value → Request
initiate_joint_zeroing timeout_seconds = record {
  fn_name = "behaviour.joint_zeroing";
  query = some (joint_zeroing_query, ("timeout_seconds", timeout_seconds) ∷ []);
  deadline = none;
  response = some "BehaviourInitiatedResponse";
}

abbrev pub initiate_hold_still : Value → Request
initiate_hold_still timeout_seconds = record {
  fn_name = "behaviour.hold_still";
  query = some (hold_still_query, ("timeout_seconds", timeout_seconds) ∷ []);
  deadline = none;
  response = some "BehaviourInitiatedResponse";
}

abbrev pub initiate_wait_for_object : Value → Value → Request
initiate_wait_for_object object_names timeout_seconds = record {
  fn_name = "behaviour.wait_for_object";
  query = some (
    wait_for_object_query,
    ("object_names", as_list object_names) ∷ ("timeout_seconds", timeout_seconds) ∷ [],
  );
  deadline = none;
  response = some "BehaviourInitiatedResponse";
}

abbrev pub get_ticket_status : Value → Request
get_ticket_status ticket_id = record {
  fn_name = "behaviour.ticket_status";
  query = some (ticket_status_query, ("ticket_id", ticket_id) ∷ []);
  deadline = none;
  response = some "TicketStatusResponse";
}

abbrev pub get_ticket_logs : Value → Value → Request
get_ticket_logs ticket_id since_index = record {
  fn_name = "behaviour.ticket_logs";
  query = some (ticket_logs_query, ("ticket_id", ticket_id) ∷ ("since_index", since_index) ∷ []);
  deadline = none;
  response = some "TicketLogsResponse";
}

abbrev pub list_tickets : Request
list_tickets = record {
  fn_name = "behaviour.list_tickets";
  query = some (list_tickets_query, []);
  deadline = none;
  response = some "ListTicketsResponse";
}

abbrev pub get_replay_notebook_cells : Value → Request
get_replay_notebook_cells ticket_ids = record {
  fn_name = "behaviour.replay_notebook_cells";
  query = some (replay_notebook_cells_query, ("ticket_ids", as_list ticket_ids) ∷ []);
  deadline = none;
  response = some "ReplayNotebookCellsResponse";
}

abbrev pub render_sequence_script : Value → Value → Request
render_sequence_script steps host = record {
  fn_name = "behaviour.render_sequence_script";
  query = some (render_sequence_script_query, ("steps", as_list steps) ∷ ("host", host) ∷ []);
  deadline = none;
  response = some "RenderSequenceScriptResponse";
}

abbrev pub get_viewer_url : Request
get_viewer_url = record {
  fn_name = "behaviour.viewer_url";
  query = none;
  deadline = none;
  response = some "VisualisationUrlResponse";
}

-- Of a query that the caller makes, `query` is what its dataclass gets.
abbrev pub initiate_execute_learned_behavior : Keywords → Request
initiate_execute_learned_behavior query = record {
  fn_name = "behaviour.execute_learned_behavior";
  query = some (execute_learned_behavior_query, query);
  deadline = none;
  response = some "BehaviourInitiatedResponse";
}

-- Every request of these wrappers but those that send a caller's query, for any arguments.
abbrev pub requests : (String → Value) → ℕ → Option ℕ → List Request
requests v n t =
    cancel_behaviour (v "ticket_id")
    ∷ initiate_trajectory_motion (v "trajectory_name") (v "speed") (v "motion_type")
        (v "static_gripper") (v "go_to_duration") (v "steady_pacing") (v "allowance_factor")
        (v "max_linear_error") (v "max_angular_error") (v "controller")
    ∷ initiate_visual_pose_motion (v "visual_pose_name") (v "period_seconds") (v "max_linear_error")
        (v "max_angular_error")
    ∷ initiate_visual_trajectory_motion (v "visual_trajectory_name") (v "static_gripper")
        (v "steady_pacing") (v "allowance_factor") (v "motion_type") (v "max_linear_error")
        (v "max_angular_error") (v "max_consecutive_missed_matches") (v "speed")
    ∷ initiate_open_gripper (v "target_position")
    ∷ initiate_close_gripper (v "target_position")
    ∷ initiate_go_to_joints (v "configuration")
    ∷ initiate_go_to_pose (v "position") (v "rotation") (v "rotation_tolerance")
    ∷ initiate_go_to_neutral_pose
    ∷ initiate_align_leader_with_follower (v "timeout_seconds") (v "threshold") (v "period_seconds")
    ∷ initiate_joint_zeroing (v "timeout_seconds")
    ∷ initiate_hold_still (v "timeout_seconds")
    ∷ initiate_wait_for_object (v "object_names") (v "timeout_seconds")
    ∷ get_ticket_status (v "ticket_id")
    ∷ get_ticket_logs (v "ticket_id") (v "since_index")
    ∷ list_tickets
    ∷ get_replay_notebook_cells (v "ticket_ids")
    ∷ render_sequence_script (v "steps") (v "host")
    ∷ get_viewer_url
    ∷ []
