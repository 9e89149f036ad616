-- ===== src/Packet.antt =====
-- The packets of the protocol: src/packet_implem.h and src/packet_implem.c. `Struct` has the
-- types, `Access` the constructor, getters and setters, `Decode` and `Encode` the two codecs.
pub mod Struct
pub mod Access
pub mod Decode
pub mod Encode
pub mod RoundTrip
pub mod Total
pub mod Length
mod Tests
