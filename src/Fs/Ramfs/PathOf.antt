-- ===== src/Fs/Ramfs/PathOf.antt =====
-- ramfs_path of fs/ramfs.c against ramfs_resolve.
use mathlib.Core.List.{reverse-reverse}
use raptor_kernel.Prelude.{
  ℕ, zero, suc, ◌+◌, ◌-◌, ◌<◌, ◌≤◌, ◌≡◌, ◌≢◌, refl, ap, sym, subst, ◌∙◌, inl, inr, true, false,
  some, List, [], ◌∷◌, ◌++◌, append-nil, append_assoc, reverse, reverse_aux, take, take-all, ◌==◌,
  if◌then◌else◌, length, length-append, arith, Bool-cases, ==_iff,
}
use raptor_kernel.Shell.{same_text}
use raptor_kernel.Shell.Redirect.{same_text_iff}
use raptor_kernel.Fs.Ramfs.{Ramfs}
use raptor_kernel.Fs.Ramfs.Walk.{ramfs_resolve, ancestors, append_text, print_names, ramfs_path}
use raptor_kernel.Fs.Ramfs.Siblings.{Linked, first_named}
use raptor_kernel.Fs.Ramfs.Resolve.{slash_path, tail_path, Descends, ramfs_resolve-Descends}
use raptor_kernel.Fs.Ramfs.Made.{Each, first_named-Each}

-- The nodes `ns` lead from `e` to `n` by the names, each with the one before as its parent.
abbrev Chain : Ramfs → (e : ℕ) → List (List ℕ) → (n : ℕ) → (ns : List ℕ) → Type 0
Chain fs e [] n [] = e ≡ n
Chain fs e [] n (c ∷ cs) = ⊥
Chain fs e (w ∷ ws) n [] = ⊥
Chain fs e (w ∷ ws) n (c ∷ cs) =
    ((fs.node c).name ≡ w) × ((fs.node c).parent ≡ e) × (c ≢ 0) × Chain fs c ws n cs

-- The children that a node's links spell have it as their parent.
abbrev pub Parented : Ramfs → Type 0
Parented fs =
    (e : ℕ) (ids : List ℕ)
    → Linked fs (fs.node e).children ids
    → Each (λ i. (fs.node i).parent ≡ e) ids

first_named-name :
    (fs : Ramfs) (ids : List ℕ) (w : List ℕ)
    → first_named fs ids w ≢ 0
    → (fs.node (first_named fs ids w)).name ≡ w
unfolding first_named
first_named-name fs [] w real = absurd (real refl)
first_named-name fs (i ∷ ids) w real = elim (Bool-cases (same_text (fs.node i).name w)) [
  | inl hit ↦ rw hit ((same_text_iff (fs.node i).name w).0 hit)
  | inr miss ↦ rw miss (first_named-name fs ids w (rw miss at real))
]

Descends-Chain :
    (fs : Ramfs) (k e : ℕ) (ws : List (List ℕ)) (n : ℕ)
    → Parented fs
    → Descends fs k e ws n
    → (ns : List ℕ) × Chain fs e ws n ns
Descends-Chain fs k e [] n up h = ([], h)
Descends-Chain fs k e (w ∷ ws) n up (name, dir, ids, l, few, real, rest) =
    let c = first_named fs ids w in
    let (ns, chain) = Descends-Chain fs k c ws n up rest in
    (
      c ∷ ns,
      (
        first_named-name fs ids w real,
        first_named-Each (λ i. (fs.node i).parent ≡ e) fs ids w real (up e ids l),
        real,
        chain,
      ),
    )

Chain-length :
    (fs : Ramfs) (e : ℕ) (ws : List (List ℕ)) (n : ℕ) (ns : List ℕ)
    → Chain fs e ws n ns
    → length ns ≡ length ws
Chain-length fs e [] n [] h = refl
Chain-length fs e [] n (c ∷ cs) h = absurd h
Chain-length fs e (w ∷ ws) n [] h = absurd h
Chain-length fs e (w ∷ ws) n (c ∷ cs) h = ap suc (Chain-length fs c ws n cs h.3)

ancestors-Chain :
    (fs : Ramfs) (e : ℕ) (ws : List (List ℕ)) (n : ℕ) (ns : List ℕ) (j : ℕ)
    → Chain fs e ws n ns
    → e ≢ 0
    → ancestors (length ns + j) fs n ≡ reverse_aux ns (ancestors j fs e)
ancestors-Chain fs e [] n [] j h real =
    let z : 0 + j ≡ j = omega arith in ap (λ k. ancestors k fs n) z ∙ ap (ancestors j fs) (sym h)
ancestors-Chain fs e [] n (c ∷ cs) j h real = absurd h
ancestors-Chain fs e (w ∷ ws) n [] j h real = absurd h
ancestors-Chain fs e (w ∷ ws) n (c ∷ cs) j (name, up, here, rest) real =
    let z : suc (length cs) + j ≡ length cs + suc j = omega arith in
    let below : ((fs.node c).parent == 0) ≡ false = ground (arith, up, real) in
    ap (λ k. ancestors k fs n) z
    ∙ ancestors-Chain fs c ws n cs (suc j) rest here
    ∙ ap (reverse_aux cs) (unfold ancestors in rw below (ap (λ k. c ∷ ancestors j fs k) up))

Chain-parent :
    (fs : Ramfs) (e : ℕ) (ws : List (List ℕ)) (n : ℕ) (ns : List ℕ)
    → Chain fs e ws n ns
    → e ≢ 0
    → 0 < length ws
    → (fs.node n).parent ≢ 0
Chain-parent fs e [] n ns h real pos = absurd (omega arith)
Chain-parent fs e (w ∷ ws) n [] h real pos = absurd h
Chain-parent fs e (w ∷ []) n (c ∷ []) h real pos =
    subst (λ k. (fs.node k).parent ≢ 0) h.3 (λ z. real (sym h.1 ∙ z))
Chain-parent fs e (w ∷ []) n (c ∷ d ∷ cs) h real pos = absurd h.3
Chain-parent fs e (w ∷ v ∷ ws) n (c ∷ cs) h real pos =
    Chain-parent fs c (v ∷ ws) n cs h.3 h.2 (omega arith)

append_text-all :
    (len : ℕ) (buf text : List ℕ)
    → length buf + length text < len
    → append_text len buf text ≡ buf ++ text
unfolding append_text
append_text-all len buf text room =
    ap (λ t. buf ++ t) (take-all (len - length buf - 1) text (omega (arith, room)))

print_names-Chain :
    (len : ℕ) (fs : Ramfs) (e : ℕ) (ws : List (List ℕ)) (n : ℕ) (ns buf : List ℕ)
    → Chain fs e ws n ns
    → length buf + length (slash_path ws) < len
    → print_names len fs ns buf ≡ buf ++ slash_path ws
unfolding print_names slash_path
print_names-Chain len fs e [] n [] buf h room = sym (append-nil buf)
print_names-Chain len fs e [] n (c ∷ cs) buf h room = absurd h
print_names-Chain len fs e (w ∷ ws) n [] buf h room = absurd h
print_names-Chain len fs e (w ∷ ws) n (c ∷ cs) buf (name, up, here, rest) room =
    let total = length-append w (slash_path ws) in
    let l1 = length-append buf (b'/' ∷ []) in
    let one : append_text len buf (b'/' ∷ []) ≡ buf ++ (b'/' ∷ []) =
      append_text-all len buf (b'/' ∷ []) (omega (arith, room)) in
    let l2 = length-append (buf ++ (b'/' ∷ [])) w in
    let two : append_text len (buf ++ (b'/' ∷ [])) w ≡ (buf ++ (b'/' ∷ [])) ++ w =
      append_text-all len (buf ++ (b'/' ∷ [])) w (omega (arith, room, total, l1)) in
    ap (λ b. print_names len fs cs (append_text len b (fs.node c).name)) one
    ∙ ap (λ v. print_names len fs cs (append_text len (buf ++ (b'/' ∷ [])) v)) name
    ∙ ap (print_names len fs cs) two
    ∙ print_names-Chain len fs c ws n cs ((buf ++ (b'/' ∷ [])) ++ w) rest
        (omega (arith, room, total, l1, l2))
    ∙ append_assoc (buf ++ (b'/' ∷ [])) w (slash_path ws)
    ∙ append_assoc buf (b'/' ∷ []) (w ++ slash_path ws)

no_ancestors : (fs : Ramfs) (j : ℕ) → (fs.node fs.root).parent ≡ 0 → ancestors j fs fs.root ≡ []
unfolding ancestors
no_ancestors fs zero top = refl
no_ancestors fs (suc j) top =
    let e : ((fs.node fs.root).parent == 0) ≡ true = (==_iff _ 0).1 top in rw e refl

slash_path-tail :
    (w : List ℕ) (ws : List (List ℕ)) → slash_path (w ∷ ws) ≡ b'/' ∷ tail_path (w ∷ ws)
unfolding slash_path tail_path
slash_path-tail w ws = refl

below_root :
    (fs : Ramfs) (n len : ℕ)
    → ((fs.node n).parent == 0) ≡ false
    → ramfs_path fs n len ≡ print_names len fs (reverse (ancestors 32 fs n)) []
unfolding ramfs_path
below_root fs n len e =
    ap
      (λ b.
        if b
        then take (len - 1) (b'/' ∷ [])
        else print_names len fs (reverse (ancestors 32 fs n)) [])
      e

-- ramfs_path gives the names that lead from the root to a node, a slash before each, when they are at
-- most 32 and the buffer has room for them; nodes have the directory that they are in as their parent.
pub ramfs_path-Descends :
    (fs : Ramfs) (k len : ℕ) (ws : List (List ℕ)) (n : ℕ)
    → Parented fs
    → fs.root ≢ 0
    → (fs.node fs.root).parent ≡ 0
    → Descends fs k fs.root ws n
    → 0 < length ws
    → length ws ≤ 32
    → length (slash_path ws) < len
    → ramfs_path fs n len ≡ slash_path ws
ramfs_path-Descends fs k len ws n up real top h pos few room =
    let (ns, chain) = Descends-Chain fs k fs.root ws n up h in
    let below : ((fs.node n).parent == 0) ≡ false =
      (let ne = Chain-parent fs fs.root ws n ns chain real pos in ground (arith, ne)) in
    let count = Chain-length fs fs.root ws n ns chain in
    let all : 32 ≡ length ns + (32 - length ns) = omega (arith, count, few) in
    let above = ancestors-Chain fs fs.root ws n ns (32 - length ns) chain real in
    below_root fs n len below
    ∙ ap (λ xs. print_names len fs (reverse xs) [])
        (ap (λ m. ancestors m fs n) all
          ∙ above
          ∙ ap (reverse_aux ns) (no_ancestors fs (32 - length ns) top))
    ∙ ap (λ xs. print_names len fs xs []) (reverse-reverse ns)
    ∙ print_names-Chain len fs fs.root ws n ns [] chain (omega (arith, room))

-- ramfs_path and ramfs_resolve agree: the path that ramfs_path writes for a node that names lead to from
-- the root is these names, a slash before each, and ramfs_resolve finds the node by it from any
-- working directory. The names are at most 32, the buffer has room for the path, and each node has
-- the directory that it is in as its parent.
pub ramfs_resolve-ramfs_path :
    (fuel : ℕ) (fs : Ramfs) (k cwd len : ℕ) (ws : List (List ℕ)) (n : ℕ)
    → Parented fs
    → fs.root ≢ 0
    → (fs.node fs.root).parent ≡ 0
    → Descends fs k fs.root ws n
    → 0 < length ws
    → length ws ≤ 32
    → length (slash_path ws) < len
    → k + length ws < fuel
    → (ramfs_path fs n len ≡ slash_path ws)
      × (ramfs_resolve fuel fs cwd (ramfs_path fs n len) ≡ some n)
ramfs_resolve-ramfs_path fuel fs k cwd len [] n up real top h pos few room enough =
    absurd (omega arith)
ramfs_resolve-ramfs_path fuel fs k cwd len (w ∷ ws) n up real top h pos few room enough =
    let e = ramfs_path-Descends fs k len (w ∷ ws) n up real top h pos few room in
    (
      e,
      ap (ramfs_resolve fuel fs cwd) e
          ∙ ap (ramfs_resolve fuel fs cwd) (slash_path-tail w ws)
          ∙ ramfs_resolve-Descends fuel fs k cwd (w ∷ ws) n enough h,
    )
