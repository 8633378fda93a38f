-- ===== src/Fs/Ramfs/LastName.antt =====
-- walk of fs/ramfs.c for ramfs_create: it stops at the last name of a path.
use mathlib.Core.Option
use raptor_kernel.Prelude.{
  ℕ, zero, suc, ◌+◌, ◌<◌, ◌≤◌, ◌≡◌, refl, ap, sym, subst, ◌∙◌, true, false, some, List, [], ◌∷◌,
  ◌==◌, length, length-append, arith,
}
use raptor_kernel.Fs.Ramfs.{Ramfs}
use raptor_kernel.Fs.Ramfs.Walk.{
  walk_loop, skip_slashes, walk, ramfs_resolve, starts_at, Walked, missing,
}
use raptor_kernel.Fs.Ramfs.Siblings.{Linked, first_named}
use raptor_kernel.Fs.Ramfs.Resolve.{
  IsName, AllNames, slash_path, tail_path, Descends, Descends-names, name_round, skip-tail_path,
  and-false,
}

-- The names followed by one more.
abbrev pub path_to : List (List ℕ) → List ℕ → List (List ℕ)
path_to [] w = w ∷ []
path_to (v ∷ vs) w = v ∷ path_to vs w

pub AllNames-path_to :
    (ws : List (List ℕ)) (w : List ℕ) → AllNames ws → IsName w → AllNames (path_to ws w)
AllNames-path_to [] w h name = (name, tt)
AllNames-path_to (v ∷ vs) w h name = (h.0, AllNames-path_to vs w h.1 name)

more_path :
    (ws : List (List ℕ)) (w : List ℕ)
    → AllNames (path_to ws w)
    → 0 < length (tail_path (path_to ws w))
unfolding tail_path
more_path [] w h =
    let some' = h.0.some_bytes in let e = length-append w (slash_path []) in omega (arith, some', e)
more_path (v ∷ vs) w h =
    let some' = h.0.some_bytes in
    let e = length-append v (slash_path (path_to vs w)) in omega (arith, some', e)

-- walk stops at the last name, and tells its directory.
pub walk_loop-parent :
    (fuel : ℕ) (fs : Ramfs) (k d0 : ℕ) (p : List ℕ) (ws : List (List ℕ)) (d : ℕ) (w : List ℕ)
    (ids : List ℕ)
    → Descends fs k d0 ws d
    → IsName w
    → (fs.node d).is_dir ≡ true
    → Linked fs (fs.node d).children ids
    → length ids ≤ k
    → k + suc (length ws) < fuel
    → skip_slashes p ≡ tail_path (path_to ws w)
    → walk_loop fuel fs d0 p true
      ≡ some (record { result = first_named fs ids w; parent_out = d; name_out = w })
walk_loop-parent zero fs k d0 p ws d w ids h name dir linked few enough e = absurd (omega arith)
walk_loop-parent (suc fuel) fs k d0 p [] d w ids h name dir linked few enough e =
    subst
      (λ x.
        walk_loop (suc fuel) fs x p true
        ≡ some (record { result = first_named fs ids w; parent_out = d; name_out = w }))
      (sym h)
      (name_round fuel fs d ids p w [] true name tt e dir linked (omega (arith, few, enough))
        ∙ unfold tail_path in refl)
walk_loop-parent (suc fuel) fs k d0 p (v ∷ vs) d w ids h name dir linked few enough e =
    let (vname, vdir, vids, vlinked, vfew, real, rest) = h in
    let c = first_named fs vids v in
    let names = AllNames-path_to vs w (Descends-names fs k c vs d rest) name in
    let going : (c == 0) ≡ false = ground (arith, real) in
    let longer : (length (tail_path (path_to vs w)) == 0) ≡ false =
      (let pos = more_path vs w names in ground (arith, pos)) in
    name_round fuel fs d0 vids p v (path_to vs w) true vname names e vdir vlinked
      (omega (arith, vfew, enough))
    ∙ rw (longer, going)
        (walk_loop-parent fuel fs k c (tail_path (path_to vs w)) vs d w ids rest name dir linked few
          (omega arith) (skip-tail_path (path_to vs w) names))

-- ramfs_resolve finds nothing by the path of a name that its directory does not have.
pub walk_loop-missing :
    (fuel : ℕ) (fs : Ramfs) (k d0 : ℕ) (p : List ℕ) (ws : List (List ℕ)) (d : ℕ) (w : List ℕ)
    (ids : List ℕ)
    → Descends fs k d0 ws d
    → IsName w
    → (fs.node d).is_dir ≡ true
    → Linked fs (fs.node d).children ids
    → length ids ≤ k
    → k + suc (length ws) < fuel
    → skip_slashes p ≡ tail_path (path_to ws w)
    → first_named fs ids w ≡ 0
    → walk_loop fuel fs d0 p false ≡ some missing
walk_loop-missing zero fs k d0 p ws d w ids h name dir linked few enough e none' =
    absurd (omega arith)
walk_loop-missing (suc fuel) fs k d0 p [] d w ids h name dir linked few enough e none' =
    subst (λ x. walk_loop (suc fuel) fs x p false ≡ some missing) (sym h)
      (name_round fuel fs d ids p w [] false name tt e dir linked (omega (arith, few, enough))
        ∙ rw (none', and-false (length (tail_path []) == 0)) refl)
walk_loop-missing (suc fuel) fs k d0 p (v ∷ vs) d w ids h name dir linked few enough e none' =
    let (vname, vdir, vids, vlinked, vfew, real, rest) = h in
    let c = first_named fs vids v in
    let names = AllNames-path_to vs w (Descends-names fs k c vs d rest) name in
    let going : (c == 0) ≡ false = ground (arith, real) in
    name_round fuel fs d0 vids p v (path_to vs w) false vname names e vdir vlinked
      (omega (arith, vfew, enough))
    ∙ rw (and-false (length (tail_path (path_to vs w)) == 0), going)
        (walk_loop-missing fuel fs k c (tail_path (path_to vs w)) vs d w ids rest name dir linked
          few (omega arith) (skip-tail_path (path_to vs w) names) none')

pub ramfs_resolve-missing :
    (fuel : ℕ) (fs : Ramfs) (k cwd : ℕ) (ws : List (List ℕ)) (d : ℕ) (w : List ℕ) (ids : List ℕ)
    → Descends fs k fs.root ws d
    → IsName w
    → (fs.node d).is_dir ≡ true
    → Linked fs (fs.node d).children ids
    → length ids ≤ k
    → k + suc (length ws) < fuel
    → first_named fs ids w ≡ 0
    → ramfs_resolve fuel fs cwd (b'/' ∷ tail_path (path_to ws w)) ≡ some 0
unfolding ramfs_resolve walk
ramfs_resolve-missing fuel fs k cwd ws d w ids h name dir linked few enough none' =
    let names = AllNames-path_to ws w (Descends-names fs k fs.root ws d h) name in
    ap (Option.map (λ (r : Walked). r.result)) (
      unfold starts_at in
      walk_loop-missing fuel fs k fs.root (b'/' ∷ tail_path (path_to ws w)) ws d w ids h name dir
        linked few enough (unfold skip_slashes in skip-tail_path (path_to ws w) names) none')

pub length-path_to : (ws : List (List ℕ)) (w : List ℕ) → length (path_to ws w) ≡ suc (length ws)
length-path_to [] w = refl
length-path_to (v ∷ vs) w = ap suc (length-path_to vs w)
