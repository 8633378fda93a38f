-- ===== src/Drivers.antt =====
-- The directory drivers/: the keyboard, the text screen, the real-time clock, the timer and
-- the serial port.
pub mod Keyboard
pub mod Vga
pub mod Rtc
pub mod Timer
pub mod Serial
