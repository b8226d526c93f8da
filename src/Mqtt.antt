-- ===== src/Mqtt.antt =====
-- internal/mqtt: the packets of subscriber.go and publisher.go. Bytes are numbers below 256; what a
-- connection delivers is the list of the bytes to come, and `none` is an error.
pub mod Lengths
pub mod Packets
pub mod Publish
pub mod Connection
pub mod Commands
