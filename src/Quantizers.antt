-- ===== src/Quantizers.antt =====
-- pockettitan/quantizers: the packing of integer codes into bytes, and their values.
pub mod Rtn
pub mod Dequantize
