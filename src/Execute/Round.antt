-- ===== src/Execute/Round.antt =====
-- A round of shell_run of shell/shell.c on a line that is typed without editing.
use raptor_kernel.Prelude.{
  ℕ, ◌+◌, ◌<◌, ◌≤◌, ◌≡◌, refl, ap, ◌∙◌, true, false, Option, none, some, List, [], ◌∷◌, ◌++◌, ltb,
  ◌==◌, length, length-append, arith,
}
use raptor_kernel.Mm.Allocator.{Allocator}
use raptor_kernel.Console
use raptor_kernel.Shell.{History, line_max, shell_history_count, history_add, key_up, key_down}
use raptor_kernel.Shell.Echo.{echo_loop, read_echo}
use raptor_kernel.Shell.Input.{Printable, read_line_lem}
use raptor_kernel.Commands.World.{World, ◌>>=◌, ◌>>◌, bind_lem}
use raptor_kernel.Execute.{Table, execute}
use raptor_kernel.Execute.Run.{print_prompt, read_input, remember, shell_round}

echo_step :
    (h : History) (cap c : ℕ) (keys buf : List ℕ) (browse : ℕ)
    → 0x20 ≤ c
    → c ≤ 0x7e
    → length buf + 1 < cap
    → echo_loop h cap (c ∷ keys) buf browse ≡ c ∷ echo_loop h cap keys (buf ++ (c ∷ [])) browse
unfolding echo_loop
echo_step h cap c keys buf browse l u room =
    let n1 : (c == 10) ≡ false = ground (arith, l) in
    let n2 : (c == 8) ≡ false = ground (arith, l) in
    let n3 : (c == key_up) ≡ false = ground (arith, u) in
    let n4 : (c == key_down) ≡ false = ground (arith, u) in
    let n5 : (c == 9) ≡ false = ground (arith, l) in
    let n6 : ltb c 0x20 ≡ false = ground (arith, l) in
    let n7 : ltb 0x7e c ≡ false = ground (arith, u) in
    let n8 : ltb (length buf + 1) cap ≡ true = ground (arith, room) in
    rw (n1, n2, n3, n4, n5, n6, n7, n8) refl

echo_typed :
    (h : History) (cap : ℕ) (cs buf : List ℕ) (browse : ℕ)
    → Printable cs
    → length buf + length cs < cap
    → echo_loop h cap (cs ++ (10 ∷ [])) buf browse ≡ cs
echo_typed h cap [] buf browse p room = unfold echo_loop in refl
echo_typed h cap (c ∷ cs) buf browse p room =
    echo_step h cap c (cs ++ (10 ∷ [])) buf browse p.0 p.1 (omega (arith, room))
    ∙ ap (λ t. c ∷ t)
        (echo_typed h cap cs (buf ++ (c ∷ [])) browse p.2
          (omega (arith, room, length-append buf (c ∷ []))))

module _ {A : Allocator} where
  prompt-run :
      (w : World A)
      → (con : Console.Console) × (print_prompt w ≡ some (tt, record w { console = con }))
  unfolding print_prompt
  prompt-run w = (_, refl)

  input-run :
      (w : World A) (cs : List ℕ)
      → Printable cs
      → length cs < line_max
      → read_input (cs ++ (10 ∷ [])) w
        ≡ some (cs, record w { console = Console.console_write w.console (cs ++ (10 ∷ [])) })
  unfolding read_input read_echo
  input-run w cs p room =
      let keys = cs ++ (10 ∷ []) in
      let echo =
        echo_typed w.history line_max cs [] (shell_history_count w.history) p
          (omega (arith, room)) in
      ap
        (λ o. elim o as (λ x. Option (List ℕ × World A)) [
          | none ↦ none
          | some line ↦ some (
            line,
            record w {
              console = Console.console_write w.console (read_echo w.history line_max keys);
            },
          )
        ])
        (read_line_lem w.history line_max cs [] p room)
      ∙ ap (λ (t : List ℕ). answered (Console.console_write w.console (t ++ (10 ∷ [])))) echo
    where
      answered : Console.Console → Option (List ℕ × World A)
      answered con = some (cs, record w { console = con })

  -- A round of the shell on a line of printable characters that fits the buffer, not empty, and a
  -- newline: the prompt changes the console only, then the line and the newline are shown as they
  -- are typed, the line goes into the history, and execute runs on exactly this line.
  pub shell_round_lem :
      (fuel : ℕ) (table : Table A) (w : World A) (c : ℕ) (cs : List ℕ)
      → Printable (c ∷ cs)
      → length (c ∷ cs) < line_max
      → (con : Console.Console) × (print_prompt w ≡ some (tt, record w { console = con }))
        × (shell_round fuel table ((c ∷ cs) ++ (10 ∷ [])) w
            ≡ execute fuel table (c ∷ cs) (record w {
              console = Console.console_write con ((c ∷ cs) ++ (10 ∷ []));
              history = history_add w.history (c ∷ cs);
            }))
  unfolding shell_round remember
  shell_round_lem fuel table w c cs p room =
      let (con, prompt) = prompt-run w in
      let keys = (c ∷ cs) ++ (10 ∷ []) in
      let w1 : World A = record w { console = con } in
      (
        con,
        prompt,
        bind_lem print_prompt
              (λ u. read_input keys >>= λ line. remember line >> execute fuel table line) w w1 tt
              prompt
            ∙ bind_lem (read_input keys) (λ line. remember line >> execute fuel table line) w1
                (record w1 { console = Console.console_write con keys }) (c ∷ cs)
                (input-run w1 (c ∷ cs) p room),
      )
