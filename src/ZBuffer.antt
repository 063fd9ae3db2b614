-- ===== src/ZBuffer.antt =====
-- The zero-copy buffer: include/p/base/zbuffer.h and src/zbuffer.cpp.
-- `Block` has the blocks and their reference counts, `Cache` the blocks that a thread keeps,
-- `Ref` the references into blocks and the ring of references, `Buffer` the class itself.
pub mod Block
pub mod Cache
pub mod Ref
pub mod Buffer
mod Examples
