-- ===== src/Domain.antt =====
-- services/api/internal/domain: value objects, errors and the request model.
pub mod ValueObjects
pub mod Errors
pub mod Model
