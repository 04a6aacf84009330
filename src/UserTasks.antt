-- ===== src/UserTasks.antt =====
-- app/services/user_task.py: the tasks that users and other systems send, watch and take back.
pub mod Attempt
pub mod Apart
pub mod Guards
pub mod Queue
pub mod States
pub mod Orders
pub mod Sending
pub mod Control
pub mod Steps
