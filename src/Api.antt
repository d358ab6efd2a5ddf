-- ===== src/Api.antt =====
-- internal/gateway/api.go: the handlers of the REST API. A handler reads the request and gives a
-- response; `Site` is what the handlers of the gateway share.
pub mod Answers
pub mod Backend
pub mod Account
pub mod Service
pub mod Sessions
pub mod Status
pub mod Admin
pub mod Upload
