-- ===== src/Format.antt =====
-- crates/thorax-core/src/format.rs: the stored data types, each named as the source names it.
-- A newtype over `HashValue` (`UserId`, `GroupId`, ...) is a synonym of its bytes, and a `String`
-- is its UTF-8 bytes, since both are compared and hashed as these; but a handle, which is trimmed by
-- characters, is its code points. A `u64` is a plain number.
pub mod Selector
pub mod Key
pub mod Body
pub mod RatchetRecord
