-- ===== src/Search.antt =====
-- The search of the search service (search/search_service/proxy/es_proxy_v2.py and
-- api/search.py), and what the frontend asks of it (frontend/.../api/search/v1.py).
pub mod Resources
pub mod Queries
pub mod Admits
pub mod Hits
pub mod Execution
pub mod Paging
pub mod Response
pub mod Settled
pub mod Folded
pub mod Asked
pub mod Found
pub mod Documents
pub mod Edits
pub mod Restored
pub mod Health
pub mod Endpoint
pub mod Requests
pub mod Served
