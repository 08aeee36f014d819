-- ===== src/Inscriptions.antt =====
-- Inscriptions, src/inscriptions: where an offset lies among outputs, and the pushes of a script.
pub mod Searcher
pub mod Offsets
pub mod Leaked
pub mod LeakedPlace
pub mod Envelope
pub mod EnvelopeTrip
pub mod Tag
pub mod Parsed
pub mod Fields
pub mod Parse
pub mod Pieces
pub mod Template
pub mod Moves
pub mod Create
pub mod Block
pub mod Prevouts
pub mod Keyed
pub mod SafeMoves
pub mod SafeTemplate
pub mod SafeCreate
pub mod SafeBlock
pub mod Fits
pub mod PrevoutsKnown
pub mod Push
pub mod Pointer
mod Tests
mod BlockTests
