-- ===== src/Shipping.antt =====
-- internal/shipping: the dispatch of a shipment's packages.
pub mod Shipment
mod Examples
