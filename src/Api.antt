-- ===== src/Api.antt =====
-- The API types of a Config (api/v1alpha1): its notification sources, its destinations, and the
-- validation of a specification.
mod Sources
mod Destinations
pub mod Validation
pub use Sources.*
pub use Destinations.*
