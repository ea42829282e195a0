-- ===== src/Context/Session.antt =====
-- The session.
pub mod State
pub mod Stored
pub mod Moves
pub mod Checks
pub mod Operations
pub mod Querying
pub mod Effects
pub mod Ends
pub mod Durable
pub mod DurableMoves
pub mod Quiet
pub mod Rules
pub mod DurableEvictions
pub mod Picked
pub mod DurableBounds
pub mod DurablePromotions
pub mod DurableAdditions
pub mod DurableQueries
pub mod Repeats
pub mod Checked
pub mod DurableAdds
pub mod DurableCalls
pub mod QuietCalls
pub mod Takes
pub mod Fresh
pub mod Opened
pub mod History
pub mod Durability
pub mod Populations
pub mod Unmoved
pub mod OneEvicted
pub mod Evicted
pub mod Bounds
pub mod BoundedCalls
pub mod Validity
pub mod Firsts
pub mod Order
pub mod Progress
pub mod Completion
pub mod Promotion
