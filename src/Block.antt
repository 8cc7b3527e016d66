-- ===== src/Block.antt =====
-- src/block_builder.rs and src/block.rs: blocks of entries with shared key prefixes and restart
-- points, their builder and their iterator. `none` is a panic; where the source answers an `Option`
-- of its own, the model answers an `Option` inside.
pub mod Builder
pub mod Iter
mod Tests
