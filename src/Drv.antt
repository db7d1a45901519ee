-- ===== src/Drv.antt =====
-- crates/nix-build-forest/src/drv.rs: the parser of `.drv` files.
pub mod Term
pub mod Parse
pub mod Ends
pub mod Settled
pub mod Print
pub mod Front
pub mod RoundTrip
pub mod Derivation
mod Tests
