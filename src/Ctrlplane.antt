-- ===== src/Ctrlplane.antt =====
-- ctrlplane/src: the PGW of the control plane (pkt, cmn, pgw) and the GTP-C proxy (proxy) between the
-- SGWs and the PGWs.
pub mod Echo
pub mod Gtpc
pub mod Node
pub mod Peers
pub mod Tunnel
pub mod Routes
pub mod Proxy
mod Runs
