-- ===== src/Common.antt =====
-- src/common: the five-tuple that names a flow (five_tuple.h, five_tuple.cpp) and the steady clock
-- (clock.h). A TimePoint is the number of nanoseconds since the clock's epoch.
pub mod FiveTuple
pub mod Clock
