-- ===== src/Agent.antt =====
-- include/ieee1905_1/agent.h and src/agent.cpp: the agent, which sends and handles messages.
pub mod Switch
pub mod Names
pub mod Process
pub mod Sends
pub mod Dispatch
pub mod Handlers
pub mod Handling
pub mod Declared
pub mod Naming
pub mod Discovery
pub mod Sending
pub mod Sent
pub mod Loop
pub mod Receiving
pub mod Announcing
pub mod Order
pub mod Starting
pub mod Rounds
pub mod Arrivals
pub mod Reactions
pub mod Exchange
