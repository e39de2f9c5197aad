-- ===== src/Bits.antt =====
-- The bit operations of src/compat/linux/bitops.h and src/compat/linux/bitfield.h.
pub mod Laws
pub mod Table
