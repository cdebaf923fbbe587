-- ===== src/Market.antt =====
-- The market as its services see it: the path of a risk from its submission to a bound syndication
-- (apps/api/src: submission, underwriting, marketplace, capital and syndication).
pub mod Store
pub mod Repositories
pub mod Syndications
pub mod Underwritings
pub mod Listings
pub mod Calls
pub mod Reads
pub mod Frozen
pub mod Valid
pub mod Replay
pub mod Log
pub mod Exact
pub mod OneEach
pub mod Invariant
pub mod Spec
pub mod Moves
pub mod Refinement
pub mod Exposure
pub mod Commitment
pub mod Progress
pub mod Interests
pub mod Clearance
pub mod Flaws
pub mod Throws
pub mod Changes
pub mod Effects
pub mod Atomic
