-- ===== src/Access.antt =====
-- Who may call what: the lists that an API key carries (internal/server/middleware/ipallow.go and
-- internal/model/apikey.go), and the authentication of a key (internal/server/middleware/auth.go).
pub mod Lists
pub mod Bound
pub mod Auth
pub mod Texts
pub mod Usable
pub mod Session
mod Examples
