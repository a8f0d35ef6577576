-- ===== src/Sync.antt =====
-- The rules of the sync with an external system of record, src/domain/sync.
pub mod Order
pub mod FieldMap
pub mod Translate
pub mod Transforms
pub mod Records
pub mod Arrivals
pub mod RoundTrip
pub mod FieldReport
pub mod Targets
pub mod Samples
pub mod Validated
pub mod Rules
pub mod Ownership
pub mod Enqueue
pub mod StateMap
pub mod Sharing
pub mod Outbound
pub mod Repository
pub mod Calls
pub mod Settle
pub mod Messages
pub mod Files
pub mod Changes
pub mod Push
pub mod Queue
pub mod Delivery
pub mod Failures
pub mod Writes
pub mod WritesOf
pub mod Sends
pub mod Settled
pub mod Endings
pub mod SoundQueue
pub mod Insertion
pub mod Steps
pub mod Told
pub mod Advance
mod Tests
mod DeliveryTests
