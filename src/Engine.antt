-- ===== src/Engine.antt =====
-- core/engine: the constitutional transition, by which the engine runs, its facade, and the ports
-- that the rest of the program plugs in.
pub mod Transition
pub mod Gate
pub mod Run
pub mod Ports
pub mod EndToEnd
pub mod QueueAdapter
