-- ===== src/Tickets.antt =====
-- sdk/client.py: how a behaviour's or a column motion's ticket is waited for and cancelled.
pub mod Wait
pub mod Deadlines
pub mod Outcomes
pub mod Motion
pub mod Cancels
pub mod Submit
pub mod Registered
pub mod Heard
mod Examples
mod Submissions
