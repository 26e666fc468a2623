-- ===== src/World.antt =====
-- What surrounds the processor: ScyllaDB, Redis, Kafka, the clock and the codecs are parameters,
-- given by the replies that they make to the calls of the process, each after a history of calls.
-- A Go function that talks to them is a function of those replies and of the `World`.
mod Events
mod Program
mod Calls
pub mod Views
pub mod Keeps
pub mod Steps
pub mod Extends
unfoldable pub use Events.*
unfoldable pub use Program.*
unfoldable pub use Calls.*
