-- ===== src/Commands/Echo.antt =====
-- echo of shell/commands.c.
use raptor_kernel.Prelude.{
  ℕ, ◌≡◌, refl, ap, sym, ◌∙◌, true, false, Option, some, List, [], ◌∷◌, ◌++◌, append-nil, drop,
}
use raptor_kernel.Mm.Allocator.{Allocator}
use raptor_kernel.Console
use raptor_kernel.Commands.World.{World, bind_lem, console_putc, pure, ◌>>◌}
use raptor_kernel.Commands.Text.{echo_words, cmd_echo}
use raptor_kernel.Commands.Lines.{printed, console_write-append}

-- The words with a space between each and the next.
unfoldable pub joined : List (List ℕ) → List ℕ
joined [] = []
joined (a ∷ []) = a
joined (a ∷ b ∷ bs) = a ++ (b' ' ∷ joined (b ∷ bs))

-- The words with a space before each.
abbrev spaced : List (List ℕ) → List ℕ
spaced [] = []
spaced (a ∷ as') = b' ' ∷ (a ++ spaced as')

joined-spaced : (a : List ℕ) (as' : List (List ℕ)) → joined (a ∷ as') ≡ a ++ spaced as'
unfolding joined
joined-spaced a [] = sym (append-nil a)
joined-spaced a (b ∷ bs) = ap (λ t. a ++ (b' ' ∷ t)) (joined-spaced b bs)

module _ {A : Allocator} where
  abbrev wrote : World A → List ℕ → Option (Unit {0} × World A)
  wrote w out = some (tt, record w { console = Console.console_write w.console out })

  more :
      (w : World A) (xs ys : List ℕ)
      → wrote (record w { console = Console.console_write w.console xs }) ys ≡ wrote w (xs ++ ys)
  more w xs ys =
      ap (λ (con : Console.Console). on_console con) (console_write-append w.console xs ys)
    where
      on_console : Console.Console → Option (Unit {0} × World A)
      on_console con = some (tt, record w { console = con })

  echo_words-spaced :
      (as' : List (List ℕ)) (w : World A) → echo_words as' false w ≡ wrote w (spaced as')
  unfolding echo_words Console.console_write
  echo_words-spaced [] w = refl
  echo_words-spaced (a ∷ as') w =
      let con = Console.console_write w.console (b' ' ∷ a) in
      echo_words-spaced as' (record w { console = con }) ∙ more w (b' ' ∷ a) (spaced as')

  echo_words-joined :
      (as' : List (List ℕ)) (w : World A) → echo_words as' true w ≡ wrote w (joined as')
  unfolding echo_words Console.console_write
  echo_words-joined [] w = unfold joined in refl
  echo_words-joined (a ∷ as') w =
      let con = Console.console_write w.console a in
      echo_words-spaced as' (record w { console = con })
      ∙ more w a (spaced as')
      ∙ ap (wrote w) (sym (joined-spaced a as'))

  -- echo always succeeds, and only writes: its words, a space between each and the next, and a newline.
  pub cmd_echo_lem :
      (argv : List (List ℕ)) (w : World A)
      → cmd_echo argv w ≡ printed w 0 (joined (drop 1 argv) ++ (10 ∷ []))
  unfolding cmd_echo Console.console_write
  cmd_echo_lem argv w =
      let text = joined (drop 1 argv) in
      bind_lem (echo_words (drop 1 argv) true) (λ u. console_putc 10 >> pure 0) w
        (record w { console = Console.console_write w.console text }) tt
        (echo_words-joined (drop 1 argv) w)
      ∙ ap (λ (con : Console.Console). with_code con)
          (console_write-append w.console text (10 ∷ []))
    where
      with_code : Console.Console → Option (ℕ × World A)
      with_code con = some (0, record w { console = con })
