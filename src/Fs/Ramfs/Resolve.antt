-- ===== src/Fs/Ramfs/Resolve.antt =====
-- walk of fs/ramfs.c on paths put together from names: it descends through the directories.
use mathlib.Core.Option
use raptor_kernel.Prelude.{
  ℕ, zero, suc, ◌+◌, ◌-◌, ◌<◌, ◌≤◌, ◌≡◌, ◌≢◌, refl, ap, ◌∙◌, Bool, true, false, not, ◌&&◌, Option,
  some, List, [], ◌∷◌, ◌++◌, leb, ◌==◌, if◌then◌else◌, take, take-all, length, arith,
}
use raptor_kernel.Shell.{same_text}
use raptor_kernel.Fs.Ramfs.{Ramfs, name_max}
use raptor_kernel.Fs.Ramfs.Walk.{
  skip_slashes, component, Walked, missing, is_dots, step, walk_round, walk_loop, starts_at, walk,
  ramfs_resolve,
}
use raptor_kernel.Fs.Ramfs.Siblings.{Linked, first_named, find_child_lem}

abbrev pub NoSlash : List ℕ → Type 0
NoSlash [] = Unit {0}
NoSlash (c ∷ cs) = ((c == b'/') ≡ false) × NoSlash cs

-- A name that a node can have: some bytes, none of them a slash, at most 31 of them, and neither of
-- the two that walk takes for itself.
pub record IsName (w : List ℕ) : Type 0 where
  pub some_bytes : 0 < length w
  pub short : length w < name_max
  pub no_slash : NoSlash w
  pub no_dot : same_text w (b'.' ∷ []) ≡ false
  pub no_dots : same_text w (b'.' ∷ b'.' ∷ []) ≡ false

-- The path of the names, a slash before each.
unfoldable pub slash_path : List (List ℕ) → List ℕ
slash_path [] = []
slash_path (w ∷ ws) = b'/' ∷ (w ++ slash_path ws)

-- The same without the first slash.
unfoldable pub tail_path : List (List ℕ) → List ℕ
unfolding slash_path
tail_path [] = []
tail_path (w ∷ ws) = w ++ slash_path ws

component-name :
    (w : List ℕ) (ws : List (List ℕ))
    → NoSlash w
    → component (w ++ slash_path ws) ≡ (w, slash_path ws)
unfolding component slash_path
component-name [] [] h = refl
component-name [] (v ∷ ws) h = refl
component-name (c ∷ w) ws h = rw (h.0, component-name w ws h.1) refl

skip-name : (w rest : List ℕ) → 0 < length w → NoSlash w → skip_slashes (w ++ rest) ≡ w ++ rest
unfolding skip_slashes
skip-name [] rest h k = absurd (omega arith)
skip-name (c ∷ w) rest h k = rw k.0 refl

abbrev pub AllNames : List (List ℕ) → Type 0
AllNames [] = Unit {0}
AllNames (w ∷ ws) = IsName w × AllNames ws

skip-slash_path : (ws : List (List ℕ)) → AllNames ws → skip_slashes (slash_path ws) ≡ tail_path ws
unfolding skip_slashes slash_path tail_path
skip-slash_path [] h = refl
skip-slash_path (w ∷ ws) h = skip-name w (slash_path ws) h.0.some_bytes h.0.no_slash

pub skip-tail_path : (ws : List (List ℕ)) → AllNames ws → skip_slashes (tail_path ws) ≡ tail_path ws
unfolding skip_slashes tail_path
skip-tail_path [] h = refl
skip-tail_path (w ∷ ws) h = skip-name w (slash_path ws) h.0.some_bytes h.0.no_slash

-- What one round of walk makes of the node `n` that a name leads to.
abbrev pub after_name :
    (fuel : ℕ)
    → Ramfs
    → (d : ℕ) → List ℕ
    → List (List ℕ)
    → (wants_parent : Bool) → (n : ℕ) → Option Walked
after_name fuel fs d w ws wants_parent n =
    if (length (tail_path ws) == 0) && wants_parent
    then some (record { result = n; parent_out = d; name_out = w })
    else if n == 0
    then some missing
    else walk_loop fuel fs n (tail_path ws) wants_parent

abbrev chosen :
    (fs : Ramfs)
    → (d : ℕ) → List ℕ
    → (rest : List ℕ) → (wants_parent : Bool) → (n : ℕ) → (more : Option Walked) → Option Walked
chosen fs d w rest wants_parent n more =
    if (length rest == 0) && wants_parent && not (is_dots w)
    then some (record { result = n; parent_out = d; name_out = take (name_max - 1) w })
    else if n == 0
    then some missing
    else more

one_round :
    (fuel : ℕ) (fs : Ramfs) (d c : ℕ) (cs w after : List ℕ) (wants_parent : Bool) (n : ℕ)
    (go : ℕ → List ℕ → Option Walked)
    → component (c ∷ cs) ≡ (w, after)
    → leb name_max (length w) ≡ false
    → step fuel fs d w ≡ some (some n)
    → walk_round fuel fs d (c ∷ cs) wants_parent go
      ≡ chosen fs d w (skip_slashes after) wants_parent n (go n (skip_slashes after))
unfolding walk_round
one_round fuel fs d c cs w after wants_parent n go e short st =
    let e0 : (component (c ∷ cs)).0 ≡ w = ap (λ (q : List ℕ × List ℕ). q.0) e in
    let e1 : (component (c ∷ cs)).1 ≡ after = ap (λ (q : List ℕ × List ℕ). q.1) e in
    rw (e0, short, st, e0, e1) refl

and-true : (b : Bool) → (b && true) ≡ b
and-true true = refl
and-true false = refl

pub and-false : (b : Bool) → (b && false) ≡ false
and-false true = refl
and-false false = refl

is_dots-name : (w : List ℕ) → IsName w → not (is_dots w) ≡ true
is_dots-name w name = rw (name.no_dot, name.no_dots) refl

named_step :
    (fuel : ℕ) (fs : Ramfs) (d : ℕ) (ids : List ℕ) (w : List ℕ)
    → IsName w
    → (fs.node d).is_dir ≡ true
    → Linked fs (fs.node d).children ids
    → length ids < fuel
    → step fuel fs d w ≡ some (some (first_named fs ids w))
unfolding step
named_step fuel fs d ids w name dir linked enough =
    rw (name.no_dot, name.no_dots, dir, find_child_lem fuel fs d ids w linked enough) refl

chosen_name :
    (fuel : ℕ) (fs : Ramfs) (d : ℕ) (w : List ℕ) (ws : List (List ℕ)) (wants_parent : Bool) (n : ℕ)
    → IsName w
    → AllNames ws
    → take (name_max - 1) w ≡ w
    → chosen fs d w
        (skip_slashes (slash_path ws))
        wants_parent
        n
        (walk_loop fuel fs n (skip_slashes (slash_path ws)) wants_parent)
      ≡ after_name fuel fs d w ws wants_parent n
chosen_name fuel fs d w ws wants_parent n name names whole =
    rw
      (
        skip-slash_path ws names,
        whole,
        is_dots-name w name,
        and-true ((length (tail_path ws) == 0) && wants_parent),
      )
      refl

pub name_round :
    (fuel : ℕ) (fs : Ramfs) (d : ℕ) (ids : List ℕ) (p w : List ℕ) (ws : List (List ℕ))
    (wants_parent : Bool)
    → IsName w
    → AllNames ws
    → skip_slashes p ≡ tail_path (w ∷ ws)
    → (fs.node d).is_dir ≡ true
    → Linked fs (fs.node d).children ids
    → length ids < suc fuel
    → walk_loop (suc fuel) fs d p wants_parent
      ≡ after_name fuel fs d w ws wants_parent (first_named fs ids w)
unfolding walk_loop tail_path
name_round fuel fs d ids p [] ws wants_parent name names e dir linked enough =
    let pos = name.some_bytes in absurd (omega (arith, pos))
name_round fuel fs d ids p (c ∷ w) ws wants_parent name names e dir linked enough =
    let n = first_named fs ids (c ∷ w) in
    let short : leb name_max (length (c ∷ w)) ≡ false = (let s = name.short in ground (arith, s)) in
    let whole : take (name_max - 1) (c ∷ w) ≡ c ∷ w =
      (let s = name.short in take-all (name_max - 1) (c ∷ w) (omega (arith, s))) in
    ap
      (λ q.
        walk_round (suc fuel) fs d q wants_parent (λ k rest. walk_loop fuel fs k rest wants_parent))
      e
    ∙ one_round (suc fuel) fs d c (w ++ slash_path ws) (c ∷ w) (slash_path ws) wants_parent n
        (λ k rest. walk_loop fuel fs k rest wants_parent) (component-name (c ∷ w) ws name.no_slash)
        short (named_step (suc fuel) fs d ids (c ∷ w) name dir linked enough)
    ∙ chosen_name fuel fs d (c ∷ w) ws wants_parent n name names whole

-- Every directory on the way has at most `k` children; the names lead from `d` to `n`.
abbrev pub Descends : (fs : Ramfs) → (k d : ℕ) → List (List ℕ) → (n : ℕ) → Type 0
Descends fs k d [] n = d ≡ n
Descends fs k d (w ∷ ws) n =
    IsName w
    × ((fs.node d).is_dir ≡ true)
    × (ids : List ℕ) × Linked fs (fs.node d).children ids
    × (length ids ≤ k)
    × (first_named fs ids w ≢ 0)
    × Descends fs k (first_named fs ids w) ws n

pub Descends-names :
    (fs : Ramfs) (k d : ℕ) (ws : List (List ℕ)) (n : ℕ) → Descends fs k d ws n → AllNames ws
Descends-names fs k d [] n h = tt
Descends-names fs k d (w ∷ ws) n (name, dir, ids, linked, few, real, rest) =
    (name, Descends-names fs k (first_named fs ids w) ws n rest)

walk_loop-Descends :
    (fuel : ℕ) (fs : Ramfs) (k d : ℕ) (p : List ℕ) (ws : List (List ℕ)) (n : ℕ)
    → Descends fs k d ws n
    → k + length ws < fuel
    → skip_slashes p ≡ tail_path ws
    → walk_loop fuel fs d p false ≡ some (record missing { result = n })
unfolding walk_loop tail_path
walk_loop-Descends zero fs k d p ws n h enough e = absurd (omega arith)
walk_loop-Descends (suc fuel) fs k d p [] n h enough e =
    ap (λ q. walk_round (suc fuel) fs d q false (λ k rest. walk_loop fuel fs k rest false)) e
    ∙ ap (λ r. some (record missing { result = r })) h
walk_loop-Descends (suc fuel) fs k d p (w ∷ ws) n (name, dir, ids, linked, few, real, rest) enough
      e =
    let c = first_named fs ids w in
    let names = Descends-names fs k c ws n rest in
    let going : (c == 0) ≡ false = ground (arith, real) in
    name_round fuel fs d ids p w ws false name names e dir linked (omega (arith, few, enough))
    ∙ rw (and-false (length (tail_path ws) == 0), going)
        (walk_loop-Descends fuel fs k c (tail_path ws) ws n rest (omega arith)
          (skip-tail_path ws names))

starts_at-tail_path :
    (fs : Ramfs) (cwd : ℕ) (ws : List (List ℕ))
    → AllNames ws
    → starts_at fs cwd (tail_path ws) ≡ cwd
unfolding starts_at tail_path
starts_at-tail_path fs cwd [] h = refl
starts_at-tail_path fs cwd ([] ∷ ws) h = let pos = h.0.some_bytes in absurd (omega (arith, pos))
starts_at-tail_path fs cwd ((c ∷ w) ∷ ws) h = rw h.0.no_slash.0 refl

-- When the names lead from the root to a node, through directories with at most `k` children each,
-- ramfs_resolve finds that node by the absolute path of the names, whatever the working directory,
-- within one round more than there are names and such children.
pub ramfs_resolve-Descends :
    (fuel : ℕ) (fs : Ramfs) (k cwd : ℕ) (ws : List (List ℕ)) (n : ℕ)
    → k + length ws < fuel
    → Descends fs k fs.root ws n
    → ramfs_resolve fuel fs cwd (b'/' ∷ tail_path ws) ≡ some n
unfolding ramfs_resolve walk
ramfs_resolve-Descends fuel fs k cwd ws n enough h = ap (Option.map (λ (w : Walked). w.result)) (
    unfold starts_at in
    walk_loop-Descends fuel fs k fs.root (b'/' ∷ tail_path ws) ws n h enough
      (unfold skip_slashes in skip-tail_path ws (Descends-names fs k fs.root ws n h)))

-- The same from the working directory by the relative path.
pub ramfs_resolve-relative :
    (fuel : ℕ) (fs : Ramfs) (k cwd : ℕ) (ws : List (List ℕ)) (n : ℕ)
    → k + length ws < fuel
    → cwd ≢ 0
    → Descends fs k cwd ws n
    → ramfs_resolve fuel fs cwd (tail_path ws) ≡ some n
unfolding ramfs_resolve walk
ramfs_resolve-relative fuel fs k cwd ws n enough real h =
    let known : (cwd == 0) ≡ false = ground (arith, real) in
    let names = Descends-names fs k cwd ws n h in
    rw (known, starts_at-tail_path fs cwd ws names)
      (ap (Option.map (λ (w : Walked). w.result))
        (walk_loop-Descends fuel fs k cwd (tail_path ws) ws n h enough (skip-tail_path ws names)))
