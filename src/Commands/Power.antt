-- ===== src/Commands/Power.antt =====
-- reboot, poweroff and halt of shell/commands.c, which do not return: what they write to the ports, and
-- the console at the end. What the keyboard controller reads as comes from the hardware.
use Prim.Native.Nat.{bit_and}
use raptor_kernel.Prelude.{ℕ, Option, none, some, List, [], ◌∷◌, ◌==◌, if◌then◌else◌}
use raptor_kernel.Prelude.Text.{bytes}
use raptor_kernel.Console.{Console, console_write}

-- The loop on what port 0x64 reads as: the byte that resets the processor, once the controller takes
-- it. `none` says that it never does.
unfoldable pub pulse_reset : (status : List ℕ) → Option (ℕ × ℕ)
pulse_reset [] = none
pulse_reset (s ∷ ss) =
    let later = pulse_reset ss in if bit_and s 0x02 == 0 then some (0x64, 0xfe) else later

unfoldable pub cmd_reboot : (status : List ℕ) → Console → Option (ℕ × ℕ) × Console
unfolding pulse_reset
cmd_reboot status con = (pulse_reset status, console_write con (bytes "Rebooting...\n"))

-- The ports and values of the four ways to power off, and the console when none of them works.
unfoldable pub cmd_poweroff : Console → List (ℕ × ℕ) × Console
cmd_poweroff con = (
  (0x604, 0x2000) ∷ (0xb004, 0x2000) ∷ (0x4004, 0x3400) ∷ (0xf4, 0x10) ∷ [],
  console_write (console_write con (bytes "Powering off...\n"))
      (bytes "Power-off not supported here; halting instead.\n"),
)

unfoldable pub cmd_halt : Console → Console
cmd_halt con = console_write con (bytes "System halted. It is now safe to close the VM.\n")
