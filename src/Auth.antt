-- ===== src/Auth.antt =====
-- protocol/core/transport/auth.go: users, their keys, the rate limit and the authentication of a
-- payload. Times are nanoseconds since 1970; a remote address is the text of its IP.
pub mod Manager
