-- ===== src/Commands/Registry.antt =====
-- shell_commands of shell/commands.c: the names, the summaries and the commands. What the commands
-- read of the hardware and of the build is given.
use raptor_kernel.Prelude.{
  ℕ, zero, suc, ◌≡◌, refl, ap, ◌∙◌, inl, inr, Bool, true, false, not, ◌&&◌, Option, none, some,
  List, [], ◌∷◌, if◌then◌else◌, Bool-cases, and_parts,
}
use raptor_kernel.Prelude.Text.{bytes}
use raptor_kernel.Mm.Allocator.{Allocator}
use raptor_kernel.Drivers.Rtc.{RtcTime}
use raptor_kernel.Shell.{same_text, find_command}
use raptor_kernel.Shell.Redirect.{same_text_iff}
use raptor_kernel.Commands.World.{Action}
use raptor_kernel.Commands.Tree.{cmd_pwd, cmd_cd, cmd_ls, cmd_cat, cmd_mkdir, cmd_touch, cmd_rm}
use raptor_kernel.Commands.Files.{cmd_cp, cmd_mv}
use raptor_kernel.Commands.Text.{
  cmd_echo, cmd_whoami, cmd_history, cmd_grep, cmd_wc, cmd_head, cmd_hexdump,
}
use raptor_kernel.Commands.System.{cmd_clear, cmd_free, cmd_uptime, cmd_date}
use raptor_kernel.Commands.About.{cmd_help, cmd_banner, cmd_uname, cmd_license, cmd_sleep}
use raptor_kernel.Commands.Hardware.{Cpuid, cmd_lscpu, cmd_lspci}

pub record Hardware : Type 0 where
  pub cpuid : ℕ → Cpuid
  pub config : ℕ → ℕ
  pub status_b : ℕ
  pub clock : List RtcTime
  pub ticks : List ℕ
  pub build : List ℕ
  pub compiler : List ℕ

-- The names and summaries.
abbrev pub summaries : List (List ℕ × List ℕ)
summaries =
    (bytes "help", bytes "list all commands")
    ∷ (bytes "banner", bytes "show the Raptor logo and version")
    ∷ (bytes "clear", bytes "clear the screen")
    ∷ (bytes "echo", bytes "print arguments (supports > and >>)")
    ∷ (bytes "ls", bytes "list directory contents (-l for sizes)")
    ∷ (bytes "cat", bytes "print file contents")
    ∷ (bytes "cd", bytes "change the working directory")
    ∷ (bytes "pwd", bytes "print the working directory")
    ∷ (bytes "mkdir", bytes "create directories")
    ∷ (bytes "touch", bytes "create empty files")
    ∷ (bytes "rm", bytes "remove files (-r for directories)")
    ∷ (bytes "cp", bytes "copy a file")
    ∷ (bytes "mv", bytes "move or rename a file or directory")
    ∷ (bytes "hexdump", bytes "show a file as hex and ASCII")
    ∷ (bytes "grep", bytes "print lines of a file matching a pattern")
    ∷ (bytes "wc", bytes "count lines, words and bytes of a file")
    ∷ (bytes "head", bytes "print the first lines of a file (-n N)")
    ∷ (bytes "lscpu", bytes "show CPU vendor, model and features")
    ∷ (bytes "lspci", bytes "list devices on the PCI bus")
    ∷ (bytes "free", bytes "show memory usage")
    ∷ (bytes "uptime", bytes "show time since boot")
    ∷ (bytes "date", bytes "show the current date and time (RTC)")
    ∷ (bytes "sleep", bytes "pause for N seconds")
    ∷ (bytes "history", bytes "show recent commands")
    ∷ (bytes "uname", bytes "print kernel information (-a for all)")
    ∷ (bytes "whoami", bytes "print the current user")
    ∷ (bytes "license", bytes "show license information")
    ∷ (bytes "reboot", bytes "restart the machine")
    ∷ (bytes "poweroff", bytes "shut the machine down")
    ∷ (bytes "halt", bytes "stop the CPU")
    ∷ []

-- The entries of a table, from the names and the functions in their order.
unfoldable pub with_runs : {R : Type 0} → List (List ℕ × List ℕ) → List R → List (List ℕ × R)
with_runs [] rs = []
with_runs (n ∷ ns) [] = []
with_runs (n ∷ ns) (r ∷ rs) = (n.0, r) ∷ with_runs ns rs

module _ {A : Allocator} (fuel : ℕ) (hw : Hardware) where
  -- A command that does not return.
  abbrev pub stops : List (List ℕ) → Action A ℕ
  stops argv w = none

  abbrev pub runs : List (List (List ℕ) → Action A ℕ)
  runs =
      cmd_help summaries
      ∷ cmd_banner
      ∷ cmd_clear
      ∷ cmd_echo
      ∷ cmd_ls fuel
      ∷ cmd_cat fuel
      ∷ cmd_cd fuel
      ∷ cmd_pwd fuel
      ∷ cmd_mkdir fuel
      ∷ cmd_touch fuel
      ∷ cmd_rm fuel
      ∷ cmd_cp fuel
      ∷ cmd_mv fuel
      ∷ cmd_hexdump fuel
      ∷ cmd_grep fuel
      ∷ cmd_wc fuel
      ∷ cmd_head fuel
      ∷ cmd_lscpu hw.cpuid
      ∷ cmd_lspci hw.config
      ∷ cmd_free
      ∷ cmd_uptime
      ∷ cmd_date hw.status_b hw.clock
      ∷ cmd_sleep hw.ticks
      ∷ cmd_history
      ∷ cmd_uname hw.build hw.compiler
      ∷ cmd_whoami
      ∷ cmd_license
      ∷ stops
      ∷ stops
      ∷ stops
      ∷ []

  unfoldable pub shell_commands : List (List ℕ × (List (List ℕ) → Action A ℕ))
  unfolding with_runs
  shell_commands = with_runs summaries runs

-- The element at a position.
abbrev pub at : {R : Type 0} → List R → ℕ → Option R
at [] i = none
at (x ∷ xs) zero = some x
at (x ∷ xs) (suc i) = at xs i

abbrev named : List ℕ → List (List ℕ × List ℕ) → Bool
named w [] = false
named w (n ∷ ns) = if same_text n.0 w then true else named w ns

-- No name stands twice.
abbrev distinct : List (List ℕ × List ℕ) → Bool
distinct [] = true
distinct (n ∷ ns) = not (named n.0 ns) && distinct ns

module _ {ℓ} {R : Type ℓ} where
  nothing_at : (x : R) → none ≡ some x → ⊥
  nothing_at x h = cc

  first_at : (x y : R) → some x ≡ some y → x ≡ y
  first_at x y h = cc

named-at :
    (ns : List (List ℕ × List ℕ)) (i : ℕ) (n : List ℕ × List ℕ)
    → at ns i ≡ some n
    → named n.0 ns ≡ true
named-at [] i n e = absurd (nothing_at n e)
named-at (m ∷ ns) zero n e =
    rw ((same_text_iff m.0 n.0).1 (ap (λ (x : List ℕ × List ℕ). x.0) (first_at m n e))) refl
named-at (m ∷ ns) (suc i) n e = elim (Bool-cases (same_text m.0 n.0)) [
  | inl hit ↦ rw hit refl
  | inr miss ↦ rw miss (named-at ns i n e)
]

twice : (b : Bool) → b ≡ true → not b ≡ true → ⊥
twice true h k = cc
twice false h k = cc

-- A table without a name that stands twice finds by each of its names the function at that place.
find_command-with_runs :
    {R : Type 0} (ns : List (List ℕ × List ℕ)) (rs : List R) (i : ℕ) (n : List ℕ × List ℕ) (r : R)
    → distinct ns ≡ true
    → at ns i ≡ some n
    → at rs i ≡ some r
    → find_command (with_runs ns rs) n.0 ≡ some r
unfolding with_runs find_command
find_command-with_runs [] rs i n r d e f = absurd (nothing_at n e)
find_command-with_runs (m ∷ ns) [] i n r d e f = absurd (nothing_at r f)
find_command-with_runs (m ∷ ns) (q ∷ rs) zero n r d e f =
    rw ((same_text_iff m.0 n.0).1 (ap (λ (x : List ℕ × List ℕ). x.0) (first_at m n e))) f
find_command-with_runs (m ∷ ns) (q ∷ rs) (suc i) n r d e f =
    let (new, rest) = and_parts (not (named m.0 ns)) (distinct ns) d in
    elim (Bool-cases (same_text m.0 n.0)) [
      | inl hit ↦ absurd (
          twice (named m.0 ns)
            (ap (λ w. named w ns) ((same_text_iff m.0 n.0).0 hit) ∙ named-at ns i n e) new)
      | inr miss ↦ rw miss (find_command-with_runs ns rs i n r rest e f)
    ]

names_distinct : distinct summaries ≡ true
names_distinct = refl

-- Each of the names that help lists runs the function of its own entry: no entry hides another.
pub find_command-shell_commands :
    (A : Allocator) (fuel : ℕ) (hw : Hardware) (i : ℕ) (n : List ℕ × List ℕ)
    (r : List (List ℕ) → Action A ℕ)
    → at summaries i ≡ some n
    → at (runs {A = A} fuel hw) i ≡ some r
    → find_command (shell_commands {A = A} fuel hw) n.0 ≡ some r
unfolding shell_commands
find_command-shell_commands A fuel hw i n r e f =
    find_command-with_runs summaries (runs {A = A} fuel hw) i n r names_distinct e f
