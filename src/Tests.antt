-- ===== src/Tests.antt =====
-- Runs of the model, on concrete bytes, guests and requests.
pub mod Codecs
pub mod Stores
pub mod Guests
pub mod Daemon
pub mod Pages
pub mod Labs
pub mod Neighbours
pub mod Rounds
pub mod Buckets
pub mod Lineages
pub mod Machines
