-- ===== src/ErrorCode.antt =====
-- error-code/error-code.go and error-code/with-stack.go: errors that carry a code and extra data,
-- and utils/err_util/err_util.go: errors that say whether to retry.
pub mod Types
pub mod Code
pub mod Wrap
pub mod Preserve
pub mod Methods
pub mod Registry
pub mod Retry
pub mod Print
pub mod Log
