-- ===== src/Replies.antt =====
-- internal/cloudevents/reply/handlers: what the replies of downstream systems do to alerts.
pub mod Text
pub mod Model
pub mod Common
pub mod Annotations
pub mod Mutations
pub mod Elevated
pub mod Remediations
pub mod Rules
pub mod Annotated
pub mod Writes
pub mod Mutated
pub mod Escalations
pub mod Deregistrations
pub mod Repairs
pub mod Handling
pub mod Isolation
pub mod Dispatching
pub mod Truncation
pub mod Completion
pub mod Accepted
pub mod Acknowledging
pub mod Expiry
mod Tests
