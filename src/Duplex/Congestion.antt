-- ===== src/Duplex/Congestion.antt =====
-- src/link.rs: the congestion of one of two links in service, from its beginning to its end.
