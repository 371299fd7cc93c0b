-- ===== src/Limits.antt =====
-- The limits on how often a client may call: the login limiter (internal/server/middleware/ratelimit.go),
-- the limiter of the API keys (internal/relay/ratelimit.go) and the sampler of the failure diagnoses
-- (internal/relay/reqerr.go, `ErrorWriter.allow`). Times and durations are numbers of nanoseconds.
pub mod Login
pub mod Keys
pub mod Slots
pub mod Sampler
mod Examples
