-- ===== src/Filexfer.antt =====
-- internal/encoding/ssh/filexfer: the second encoder of the protocol. Filexfer/Buffer is its buffer,
-- Filexfer/Attributes the attributes, the packets stand in files as in the source, and
-- Filexfer/Packets has what is common to them.
pub mod Buffer
pub mod Attributes
pub mod Paths
pub mod Handles
pub mod Responses
pub mod Packets
pub mod Agrees
