-- ===== src/Sdk.antt =====
-- sdk/client.py: the clients' wrappers of remote calls, with the queries of sdk/rpc_api.py.
pub mod Value
pub mod ExecMode
pub mod RawRobot
pub mod Column
pub mod Query
pub mod Recording
pub mod VisualRecording
pub mod OnlineEpisodeForwarding
pub mod EpisodeObserver
pub mod CollectData
pub mod Dagger
pub mod Eval
pub mod Zeroing
pub mod HardwareHealth
pub mod ModelServices
pub mod Models
pub mod ObjectLibrary
pub mod TrajectoryLibrary
pub mod VisualPoseCapture
pub mod VisualPoseLibrary
pub mod VisualTrajectoryLibrary
pub mod AprilTag
pub mod Behaviour
pub mod Trainer
pub mod ProgressPredictionTrainer
pub mod Setstate
pub mod Unpickled
pub mod Ports
pub mod Forms
pub mod Call
pub mod Motions
pub mod Arm
pub mod Scope
pub mod Robot
pub mod Reached
pub mod Activation
pub mod Activated
mod Examples
mod Session
