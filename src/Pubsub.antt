-- ===== src/Pubsub.antt =====
-- The event bus, pkg/pubsub/bus.go: `Subscriber` is one subscription with its channel and its
-- dispatch goroutine, `Registry` the bus that subscribes, unsubscribes and publishes. Handlers are
-- taken to return, and the log is left out.
pub mod Subscriber
pub mod Registry
mod Sending
pub mod Delivery
mod Marks
mod Handles
pub mod Routing
mod Tests
