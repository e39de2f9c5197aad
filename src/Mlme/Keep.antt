-- ===== src/Mlme/Keep.antt =====
-- Each handler of the station keeps what holds between two calls. This file has the steps that the
-- handlers share.
pub mod Link
pub mod Scan
pub mod Join
pub mod Rx
