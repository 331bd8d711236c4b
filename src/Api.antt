-- ===== src/Api.antt =====
-- The routes of src/rescs/api/routers, from the checked request on. A response shows the object that
-- a route returns here; FastAPI has read the request, and `require_api_key` has accepted its key.
pub mod Requests
pub mod Records
pub mod Files
pub mod Uploads
pub mod Admin
pub mod Denied
pub mod Lock
pub mod Devices
pub mod Listings
pub mod Replay
pub mod Names
