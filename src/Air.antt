-- ===== src/Air.antt =====
-- The frames that cross the air, of src/kext/RTW88IEEE80211.cpp: data frames sent and received, the
-- frames of an A-MSDU, AWDL frames, and the management frames that the station builds. A frame is
-- the list of its bytes. The room in front of a socket buffer has its model in Skb, and an mbuf is
-- the list of its bytes, so that `mbuf_copydata` within its length does not fail.
pub mod Bytes
pub mod Send
pub mod Receive
pub mod Relay
pub mod Amsdu
pub mod Aggregate
pub mod Nonce
pub mod Awdl
pub mod Route
pub mod Arrive
pub mod Elements
pub mod Manage
pub mod Assoc
pub mod Offer
pub mod Supplicant
pub mod Agree
mod Tests
