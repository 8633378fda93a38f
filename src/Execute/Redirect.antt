-- ===== src/Execute/Redirect.antt =====
-- Redirection of shell/shell.c put together with what it uses: the capture of lib/console.c, the
-- heap, and ramfs_write.
use mathlib.Core.Option
use raptor_kernel.Prelude.{
  ℕ, zero, suc, ◌+◌, ◌^◌, ◌<◌, ◌≤◌, ◌≡◌, ◌≢◌, refl, ap, sym, subst, ◌∙◌, inl, inr, Bool, true,
  false, Option, none, some, List, [], ◌∷◌, ◌++◌, ◌==◌, if◌then◌else◌, min, take, length, get_or,
  arith, Bool-cases, ==_iff,
}
use raptor_kernel.Mm.Allocator.{Allocator}
use raptor_kernel.Console
use raptor_kernel.Console.{Console}
use raptor_kernel.Console.Capture.{capture_lem}
use raptor_kernel.Console.Sent.{crlf, Sent, console_write-serial, console_write-off}
use raptor_kernel.Shell.{redirected, find_command}
use raptor_kernel.Fs.Ramfs.Walk
use raptor_kernel.Fs.Ramfs.Files.{payload, read_bytes}
use raptor_kernel.Fs.Ramfs.Contents.{read_list}
use raptor_kernel.Fs.Ramfs.Written.{FileOk}
use raptor_kernel.Fs.Ramfs.SameTree.{SameTree}
use raptor_kernel.Fs.Ramfs.Write.{Owned, NoMemory, nothing, buffer, ramfs_write-ends}
use raptor_kernel.Commands.World.{World, Action, ◌>>=◌, ◌>>◌, bind_lem, kprintf, console_write}
use raptor_kernel.Commands.Tree.{text_arg}
use raptor_kernel.Execute.{
  capture_max, Table, heap_alloc, heap_free, capture_begin, capture_end, redirect_to_file, run_into,
  run_captured, with_command, run_request,
}
use raptor_kernel.Execute.ToFile.{failed_text, Filed, filed, not_filed, redirect_to_file-Filed}

take-get_or : (k : ℕ) (xs : List ℕ) (i : ℕ) → i < k → get_or (take k xs) i 0 ≡ get_or xs i 0
take-get_or zero xs i h = absurd (omega arith)
take-get_or (suc k) [] i h = refl
take-get_or (suc k) (x ∷ xs) zero h = refl
take-get_or (suc k) (x ∷ xs) (suc i) h = take-get_or k xs i (omega arith)

pub length-take : (k : ℕ) (xs : List ℕ) → length (take k xs) ≡ min (length xs) k
length-take zero xs = omega arith
length-take (suc k) [] = omega arith
length-take (suc k) (x ∷ xs) = let h = length-take k xs in omega (arith, h)

-- What console_capture_end leaves in the buffer after the bytes `cs`.
captured_text :
    (con : Console) (buf : ℕ → ℕ) (limit : ℕ) (cs : List ℕ)
    → let con' = Console.console_write (Console.console_capture_begin con buf limit) cs in
      read_bytes con'.capture_buf 0 ((Console.console_capture_end con').0) ≡ take limit cs
captured_text con buf limit cs =
    let con' = Console.console_write (Console.console_capture_begin con buf limit) cs in
    let (len, stored, beyond, screen, port) = capture_lem con buf limit cs in
    let total = length-take limit cs in
    ap (λ n. read_bytes con'.capture_buf 0 n) (len ∙ sym total)
    ∙ read_list con'.capture_buf 0 (take limit cs) (λ j h.
      let below : j < limit = omega (arith, h, total) in
      ap con'.capture_buf (omega arith)
      ∙ stored j (omega (arith, h, total)) below
      ∙ sym (take-get_or limit cs j below))

-- A text that is written once a capture is over.
pub said :
    (con over con' : Console) (text : List ℕ)
    → over.serial ≡ con.serial
    → over.capturing ≡ false
    → con' ≡ Console.console_write over text
    → Sent con con' text
said con over con' text same off e =
    subst (λ c. Sent con c text) (sym e)
      (record {
        serial = console_write-serial over text off ∙ ap (λ s. s ++ crlf text) same;
        over = console_write-off over text off;
      })

base_le : (append : Bool) (n : ℕ) → (if append then n else 0) ≤ n
base_le true n = omega arith
base_le false n = omega arith

module _ {A : Allocator} where
  -- A command that does nothing but write the bytes `out`.
  abbrev pub Writes : Action A ℕ → List ℕ → Type 0
  Writes run out =
      (w : World A)
      → (code : ℕ) × (run w
          ≡ some (code, record w { console = Console.console_write w.console out }))

  -- The outcomes of a redirection of the output `out` to the file `f` at `path`.
  pub data Redirected (w : World A) (f : ℕ) (path : List ℕ) (append : Bool) (out : List ℕ)
      (result : Option (Unit {0} × World A)) : Type 0 where
    to_file :
        (w' : World A)
        → result ≡ some (tt, w')
        → payload w'.fs f ≡ (if append then payload w.fs f else []) ++ take capture_max out
        → w'.console.vga ≡ w.console.vga
        → w'.console.serial ≡ w.console.serial
        → ((q : ℕ) → A.Live w.heap q → q ≢ (w.fs.node f).buffer → A.Live w'.heap q)
        → SameTree w.fs w'.fs
        → w'.console.capturing ≡ false
        → Redirected w f path append out result
    no_file_memory :
        (w' : World A)
        → result ≡ some (tt, w')
        → w'.fs ≡ w.fs
        → ((q : ℕ) → A.Live w.heap q → A.Live w'.heap q)
        → NoMemory A
            (A.kmalloc w.heap capture_max).1
            ((if append then (w.fs.node f).size else 0) + length (take capture_max out))
        → Sent w.console w'.console (failed_text path)
        → Redirected w f path append out result
    no_buffer :
        (A.kmalloc w.heap capture_max).0 ≡ 0
        → result
          ≡ console_write "rsh: out of memory for redirection\n"
              (record w { heap = (A.kmalloc w.heap capture_max).1 })
        → Redirected w f path append out result

  -- The state after a captured command that writes `out`.
  abbrev pub after_run : World A → (p : ℕ) → (out : List ℕ) → World A
  after_run w p out = record w {
    console =
        record (Console.console_write
          (Console.console_capture_begin w.console (w.fs.bytes p) capture_max) out) {
            capturing = false;
          };
  }

  run_into_lem :
      (w : World A) (p : ℕ) (run : Action A ℕ) (out : List ℕ)
      → Writes run out
      → run_into p run w ≡ some (take capture_max out, after_run w p out)
  unfolding capture_begin capture_end Console.console_capture_end
  run_into_lem w p run out writes =
      let w1 : World A = record w {
        console = Console.console_capture_begin w.console (w.fs.bytes p) capture_max;
      } in
      let (code, e) = writes w1 in
      bind_lem run (λ code. capture_end) w1
        (record w { console = Console.console_write w1.console out }) code e
      ∙ ap (λ text. some (text, after_run w p out))
          (captured_text w.console (w.fs.bytes p) capture_max out)

  -- The rest of a redirection that has its capture buffer at `p`.
  abbrev pub capture_at :
      (fuel p : ℕ) → Action A ℕ → (path : List ℕ) → (append : Bool) → Action A (Unit {0})
  capture_at fuel p run path append = do
    text ← run_into p run
    redirect_to_file fuel path text append
    heap_free p

  pub capture-steps :
      (fuel : ℕ) (w w' : World A) (p : ℕ) (run : Action A ℕ) (path out : List ℕ) (append : Bool)
      (s : A.State)
      → Writes run out
      → redirect_to_file fuel path (take capture_max out) append (after_run w p out) ≡ some (tt, w')
      → A.kfree w'.heap p ≡ some s
      → capture_at fuel p run path append w ≡ some (tt, record w' { heap = s })
  unfolding heap_free
  capture-steps fuel w w' p run path out append s writes e freed =
      bind_lem (run_into p run) (λ text. redirect_to_file fuel path text append >> heap_free p) w
        (after_run w p out) (take capture_max out) (run_into_lem w p run out writes)
      ∙ bind_lem (redirect_to_file fuel path (take capture_max out) append) (λ u. heap_free p)
          (after_run w p out) w' tt e
      ∙ ap (Option.map (λ s. (tt, record w' { heap = s }))) freed

  capture_at-Redirected :
      (fuel : ℕ) (w : World A) (s : A.State) (p f : ℕ) (path : List ℕ) (append : Bool)
      (run : Action A ℕ) (out : List ℕ)
      → Writes run out
      → (A.kmalloc w.heap capture_max).1 ≡ s
      → A.Live s p
      → p ≢ (w.fs.node f).buffer
      → (A.Live w.heap p → ⊥)
      → ((q : ℕ) → A.Live w.heap q → A.Live s q)
      → Filed (after_run (record w { heap = s }) p out) f path append (take capture_max out) (
          redirect_to_file fuel path
            (take capture_max out)
            append
            (after_run (record w { heap = s }) p out))
      → Redirected w f path append out (capture_at fuel p run path append (record w { heap = s }))
  capture_at-Redirected fuel w s p f path append run out writes taken live apart fresh kept ends =
      let (len, stored, beyond, screen, port) =
        capture_lem w.console (w.fs.bytes p) capture_max out in
      let base = if append then (w.fs.node f).size else 0 in
      let text = take capture_max out in
      elim ends [
        | filed w' e contents con lives tree ↦
            let (s', freed, kept') = A.kfree-live w'.heap p (lives p live apart) in
            to_file (record w' { heap = s' })
              (capture-steps fuel (record w { heap = s }) w' p run path out append s' writes e
                freed)
              contents (ap (λ (c : Console). c.vga) con ∙ screen)
              (ap (λ (c : Console). c.serial) con ∙ port)
              (λ q l ne. kept' q (lives q (kept q l) ne) (λ z. fresh (subst (A.Live w.heap) z l)))
              tree (ap (λ (c : Console). c.capturing) con)
        | not_filed w' e same lives short con ↦
            let (s', freed, kept') = A.kfree-live w'.heap p (lives p live) in
            no_file_memory (record w' { heap = s' })
              (capture-steps fuel (record w { heap = s }) w' p run path out append s' writes e
                freed)
              same (λ q l. kept' q (lives q (kept q l)) (λ z. fresh (subst (A.Live w.heap) z l)))
              (subst (λ m. NoMemory A m (base + length text)) (sym taken) short)
              (said w.console (after_run (record w { heap = s }) p out).console w'.console
                (failed_text path) port refl con)
      ]

  Owned-kept :
      (s s' : A.State) (q : ℕ) → ((r : ℕ) → A.Live s r → A.Live s' r) → Owned A s q → Owned A s' q
  Owned-kept s s' q kept (nothing z) = nothing z
  Owned-kept s s' q kept (buffer l) = buffer (kept q l)

  Owned-apart : (s : A.State) (p q : ℕ) → p ≢ 0 → (A.Live s p → ⊥) → Owned A s q → p ≢ q
  Owned-apart s p q real fresh (nothing z) = λ e. real (e ∙ z)
  Owned-apart s p q real fresh (buffer l) = λ e. fresh (subst (A.Live s) (sym e) l)

  run_captured-Redirected :
      (fuel : ℕ) (w : World A) (f : ℕ) (argv : List (List ℕ)) (path : List ℕ) (append : Bool)
      (run : List (List ℕ) → Action A ℕ) (out : List ℕ)
      → Writes (run argv) out
      → Walk.ramfs_resolve fuel w.fs w.cwd path ≡ some f
      → f ≢ 0
      → (w.fs.node f).is_dir ≡ false
      → FileOk w.fs f
      → Owned A w.heap (w.fs.node f).buffer
      → 32 < fuel
      → (w.fs.node f).size + capture_max + 8 ≤ 2 ^ 31
      → Redirected w f path append out (run_captured fuel run argv path append w)
  unfolding run_captured heap_alloc
  run_captured-Redirected fuel w f argv path append run out writes found real file ok owned enough
        word =
      let p = (A.kmalloc w.heap capture_max).0 in
      let s = (A.kmalloc w.heap capture_max).1 in
      let text = take capture_max out in
      let base = if append then (w.fs.node f).size else 0 in
      let low : base ≤ (w.fs.node f).size = base_le append (w.fs.node f).size in
      let total = length-take capture_max out in
      elim (Bool-cases (p == 0)) [
        | inl full ↦ no_buffer ((==_iff p 0).0 full) (rw full refl)
        | inr got ↦
            let (fresh, live, kept) =
              A.kmalloc-fresh w.heap capture_max (omega arith) (omega arith)
                (ground (arith, got)) in
            let now = after_run (record w { heap = s }) p out in
            rw got (
              capture_at-Redirected fuel w s p f path append (run argv) out writes refl live
                (Owned-apart w.heap p (w.fs.node f).buffer (ground (arith, got)) fresh owned) fresh
                kept
                (redirect_to_file-Filed fuel now f path text append found real file (
                  ramfs_write-ends A fuel w.fs s f text append enough real file ok
                    (Owned-kept w.heap s (w.fs.node f).buffer kept owned)
                    (omega (arith, low, total, word)))))
      ]

  pub with_command-found :
      (fuel : ℕ) (table : Table A) (argv : List (List ℕ)) (run : List (List ℕ) → Action A ℕ)
      (go : (List (List ℕ) → Action A ℕ) → Action A (Unit {0}))
      → find_command table (get_or argv 0 []) ≡ some run
      → with_command fuel table argv go ≡ go run
  unfolding with_command
  with_command-found fuel table argv run go e =
      ap
        (λ o. elim o as (λ x. Action A (Unit {0})) [
          | none ↦
              kprintf "rsh: %s: command not found (try 'help')\n" (text_arg (get_or argv 0 []) ∷ [])
          | some run ↦ go run
        ])
        e

  -- A redirected command, once its words are told from the target: with a file that exists and can
  -- be written, and a command that only writes `out`, what follows in the file is the start of
  -- `out`, up to the 16384 bytes of the capture, after the old contents for `>>`, and the screen and
  -- the serial port get nothing. Otherwise kmalloc gives NULL: for the capture, and the command does
  -- not run, or for the file, which stays as it was, and the shell says so with the file's path. In no case is kfree given a
  -- pointer that it refuses.
  pub run_request-Redirected :
      (fuel : ℕ) (table : Table A) (w : World A) (f : ℕ) (a : List ℕ) (as' : List (List ℕ))
      (path : List ℕ) (append : Bool) (run : List (List ℕ) → Action A ℕ) (out : List ℕ)
      → find_command table a ≡ some run
      → Writes (run (a ∷ as')) out
      → Walk.ramfs_resolve fuel w.fs w.cwd path ≡ some f
      → f ≢ 0
      → (w.fs.node f).is_dir ≡ false
      → FileOk w.fs f
      → Owned A w.heap (w.fs.node f).buffer
      → 32 < fuel
      → (w.fs.node f).size + capture_max + 8 ≤ 2 ^ 31
      → Redirected w f path append out (run_request fuel table (redirected (a ∷ as') path append) w)
  unfolding run_request
  run_request-Redirected fuel table w f a as' path append run out known writes found real file ok
        owned enough word =
      let found_run : with_command fuel table (a ∷ as')
            (λ run. run_captured fuel run (a ∷ as') path append)
          ≡ run_captured fuel run (a ∷ as') path append =
        with_command-found fuel table (a ∷ as') run
          (λ run. run_captured fuel run (a ∷ as') path append) known in
      subst (λ (m : Action A (Unit {0})). Redirected w f path append out (m w)) (sym found_run)
        (run_captured-Redirected fuel w f (a ∷ as') path append run out writes found real file ok
          owned enough word)
