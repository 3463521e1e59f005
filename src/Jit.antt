-- ===== src/Jit.antt =====
-- src/jit/compiler.cpp: the compilers of comparisons and of expressions, and what they use.
pub mod Comparison
pub mod Analyzer
pub mod Scratchpad
pub mod ConstPool
pub mod Emit
pub mod Scalar
pub mod Expression
