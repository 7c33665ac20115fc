-- ===== src/Python.antt =====
-- What the program uses of Python: JSON values, the runtime's conversions, exceptions.
pub mod Json
pub mod Exception
pub mod Runtime
