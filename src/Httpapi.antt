-- ===== src/Httpapi.antt =====
-- internal/httpapi: the endpoints over the service and the catalogue.
pub mod Responses
pub mod Params
pub mod Handlers
