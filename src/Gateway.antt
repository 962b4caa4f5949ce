-- ===== src/Gateway.antt =====
-- src/services/llm-browser-gateway/llm_browser_gateway: the gateway that sends each request to one tab of
-- one provider's page. Types are the results; Store is the tables that hold a provider's tabs; Engine
-- the routing of a request and the calls of the store that it makes.
pub mod Types
pub mod Availability
pub mod Store
pub mod Engine
