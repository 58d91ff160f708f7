-- ===== src/Http.antt =====
-- app/api/exception_handlers.py, app/api/v1/endpoints and app/api/dependencies.py
pub mod Responses
pub mod Endpoints
pub mod Uploaded
pub mod Requests
pub mod Corrections
