-- ===== src/Controller.antt =====
-- `src/controller.py`: one pass of the daemon of a mux over its channels.
pub mod Pass
pub mod Steps
pub mod Limit
pub mod Exclusive
pub mod Handlers
pub mod HandlerLaws
pub mod ChannelLaws
pub mod Publish
pub mod PublishLaws
pub mod Applied
pub mod Iteration
pub mod Returns
pub mod Readable
pub mod Total
