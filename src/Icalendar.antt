-- ===== src/Icalendar.antt =====
-- iCalendar texts: source/shared/RCICalendar.c, over libical as a parameter.
pub mod Framing
pub mod Parsing
pub mod Truncated
