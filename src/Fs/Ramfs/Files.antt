-- ===== src/Fs/Ramfs/Files.antt =====
-- ramfs_create, ramfs_write and ramfs_delete of fs/ramfs.c, over an allocator.
use mathlib.Core.Option
use raptor_kernel.Prelude.{
  ℕ, zero, suc, ◌+◌, ◌-◌, ◌*◌, ◌%◌, ◌^◌, Bool, true, false, not, ◌&&◌, ◌||◌, Option, none, some,
  List, [], ◌∷◌, ltb, leb, ◌==◌, if◌then◌else◌, take, length, get_or,
}
use raptor_kernel.Words.{add32}
use raptor_kernel.Mm.Allocator.{Allocator}
use raptor_kernel.Fs.Ramfs.{RamfsNode, Ramfs, set_node, attach, detach, name_max}
use raptor_kernel.Fs.Ramfs.Walk.{Walked, walk}

-- `sizeof(struct ramfs_node)` on the 32-bit target: the name's 32 bytes and seven words.
abbrev pub node_size : ℕ
node_size = 60

abbrev pub blank_node : RamfsNode
blank_node = record {
  name = [];
  is_dir = false;
  buffer = 0;
  size = 0;
  capacity = 0;
  parent = 0;
  children = 0;
  next = 0;
}

-- A buffer after `bs` has been copied to the offset `off`.
unfoldable pub copy_in : (ℕ → ℕ) → (off : ℕ) → List ℕ → ℕ → ℕ
copy_in buf off bs i =
    if leb off i && ltb (i - off) (length bs) then get_or bs (i - off) 0 else buf i

-- A buffer after the first `n` bytes of another have been copied to it.
unfoldable pub copy_first : (ℕ → ℕ) → (ℕ → ℕ) → (n : ℕ) → ℕ → ℕ
copy_first buf from n i = if ltb i n then from i else buf i

unfoldable pub set_bytes : Ramfs → ℕ → (ℕ → ℕ) → Ramfs
set_bytes fs p buf = record fs { bytes = λ q. if p == q then buf else fs.bytes q }

-- The `n` bytes of a buffer from the offset `i` on.
unfoldable pub read_bytes : (ℕ → ℕ) → (i n : ℕ) → List ℕ
read_bytes buf i zero = []
read_bytes buf i (suc n) = buf i ∷ read_bytes buf (i + 1) n

-- The contents of a file.
abbrev pub payload : Ramfs → ℕ → List ℕ
payload fs f = read_bytes (fs.bytes (fs.node f).buffer) 0 (fs.node f).size

-- `while (newcap < needed) newcap *= 2;`
unfoldable pub grow : ℕ → (newcap needed : ℕ) → Option ℕ
grow zero newcap needed = none
grow (suc fuel) newcap needed =
    let more = grow fuel (newcap * 2 % 2 ^ 32) needed in
    if ltb newcap needed then more else some newcap

-- The end of ramfs_write, once the buffer has room.
unfoldable pub store_data : Ramfs → (file base : ℕ) → List ℕ → Ramfs
unfolding set_node set_bytes copy_in
store_data fs file base text =
    let n = fs.node file in
    let fs1 = set_bytes fs n.buffer (copy_in (fs.bytes n.buffer) base text) in
    set_node fs1 file (record n { size = add32 base (length text) })

module _ (A : Allocator) where
  -- kzalloc gives a node whose fields are all zero.
  unfoldable pub node_new : Ramfs → A.State → List ℕ → (is_dir : Bool) → ℕ × Ramfs × A.State
  unfolding set_node
  node_new fs s name is_dir =
      let (n, s1) = A.kmalloc s node_size in
      if n == 0 then (0, fs, s1) else (
        n,
        set_node fs n (record blank_node { name = take (name_max - 1) name; is_dir = is_dir }),
        s1,
      )

  unfoldable pub create_at : Ramfs → A.State → Walked → (is_dir : Bool) → ℕ × Ramfs × A.State
  unfolding node_new attach
  create_at fs s w is_dir =
      let (n, fs1, s1) = node_new fs s w.name_out is_dir in
      if not (w.result == 0)
        || (w.parent_out == 0)
        || (length w.name_out == 0)
        || not (fs.node w.parent_out).is_dir
      then (0, fs, s)
      else if n == 0
      then (0, fs1, s1)
      else (n, attach fs1 w.parent_out n, s1)

  unfoldable pub ramfs_create :
      ℕ → Ramfs → A.State → (cwd : ℕ) → List ℕ → (is_dir : Bool) → Option (ℕ × Ramfs × A.State)
  unfolding create_at
  ramfs_create fuel fs s cwd path is_dir =
      Option.map (λ w. create_at fs s w is_dir)
        (walk fuel fs (if cwd == 0 then fs.root else cwd) path true)

  -- The branch of ramfs_write that gets a larger buffer, `none` for a panic in kfree.
  unfoldable pub new_buffer :
      Ramfs → A.State → (file base newcap : ℕ) → Option (Bool × Ramfs × A.State)
  unfolding set_node set_bytes copy_first
  new_buffer fs s file base newcap =
      let n = fs.node file in
      let (p, s1) = A.kmalloc s newcap in
      let fs1 = set_bytes fs p (copy_first (fs.bytes p) (fs.bytes n.buffer) base) in
      let fs2 = set_node fs1 file (record n { buffer = p; capacity = newcap }) in
      if p == 0
      then some (false, fs, s1)
      else Option.map (λ s2. (true, fs2, s2)) (A.kfree s1 n.buffer)

  unfoldable pub ensure_room :
      ℕ → Ramfs → A.State → (file base needed : ℕ) → Option (Bool × Ramfs × A.State)
  unfolding grow new_buffer
  ensure_room fuel fs s file base needed =
      let cap = (fs.node file).capacity in
      if ltb cap needed
      then elim (grow fuel (if cap == 0 then 64 else cap) needed) [
        | none ↦ none
        | some newcap ↦ new_buffer fs s file base newcap
      ]
      else some (true, fs, s)

  unfoldable pub ramfs_write :
      ℕ → Ramfs → A.State → (file : ℕ) → List ℕ → (append : Bool) → Option (Bool × Ramfs × A.State)
  unfolding ensure_room store_data
  ramfs_write fuel fs s file text append =
      let base = if append then (fs.node file).size else 0 in
      let room = ensure_room fuel fs s file base (add32 base (length text)) in
      if (file == 0) || (fs.node file).is_dir
      then some (false, fs, s)
      else Option.map
          (λ r. if r.0 then (true, store_data r.1 file base text, r.2) else (false, r.1, r.2)) room

  -- The node's children first, then its buffer, then itself; `none` for a panic or no fuel left.
  unfoldable mutual
    pub free_tree : ℕ → Ramfs → A.State → (node : ℕ) → Option A.State
    free_tree zero fs s n = none
    free_tree (suc fuel) fs s n = elim (free_children fuel fs s (fs.node n).children) [
      | none ↦ none
      | some s1 ↦ elim (A.kfree s1 (fs.node n).buffer) [ none ↦ none | some s2 ↦ A.kfree s2 n ]
    ]

    pub free_children : ℕ → Ramfs → A.State → (c : ℕ) → Option A.State
    free_children zero fs s c = none
    free_children (suc fuel) fs s c =
        let rest : Option A.State = elim (free_tree fuel fs s c) [
          | none ↦ none
          | some s1 ↦ free_children fuel fs s1 (fs.node c).next
        ] in
        if c == 0 then some s else rest

  unfoldable pub ramfs_delete :
      ℕ → Ramfs → A.State → (node : ℕ) → (recursive : Bool) → Option (Bool × Ramfs × A.State)
  unfolding detach free_tree
  ramfs_delete fuel fs s n recursive =
      if (n == 0) || (n == fs.root) || ((fs.node n).parent == 0)
      then some (false, fs, s)
      else if (fs.node n).is_dir && not ((fs.node n).children == 0) && not recursive
      then some (false, fs, s)
      else elim (detach fuel fs n) [
        | none ↦ none
        | some fs1 ↦ Option.map (λ s1. (true, fs1, s1)) (free_tree fuel fs1 s n)
      ]
