-- ===== src/Samples.antt =====
-- Concrete parameters and states for the tests: an insertion sort for ORDER BY, whole numbers of
-- cents for the doubles, an environment in which every call succeeds, one short history, and a codec of frames.
pub mod Sorting
pub mod Numbers
pub mod History
pub mod Wire
pub mod Naming
pub mod Libraries
