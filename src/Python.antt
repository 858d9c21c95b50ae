-- ===== src/Python.antt =====
-- src/python.rs: the Python classes over the core. PyO3 itself is not modelled: an object is the
-- value of its class, and an exception is an error value.
pub mod Result
pub mod Classes
pub mod Units
pub mod Events
pub mod Link
pub mod Build
pub mod Repr
pub mod Methods
pub mod Session
pub mod Roundtrip
pub mod Told
pub mod Wheel
pub mod Sending
pub mod Tests
