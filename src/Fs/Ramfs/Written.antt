-- ===== src/Fs/Ramfs/Written.antt =====
-- What ramfs_write of fs/ramfs.c does to a file and leaves of the others.
use raptor_kernel.Prelude.{
  ℕ, ◌+◌, ◌^◌, ◌<◌, ◌≤◌, ◌≡◌, ◌≢◌, refl, ap, subst₂, ◌∙◌, true, List, ◌++◌, ltb, length, arith,
}
use raptor_kernel.Words.{add32}
use raptor_kernel.Fs.Ramfs.{RamfsNode, Ramfs, set_node}
use raptor_kernel.Fs.Ramfs.Siblings.{set_node_self, set_node_ne}
use raptor_kernel.Fs.Ramfs.Files.{copy_in, copy_first, set_bytes, read_bytes, payload, store_data}
use raptor_kernel.Fs.Ramfs.Contents.{read_bytes-same, copied, set_bytes_self, set_bytes_ne}

-- The size of a file fits its buffer, and sizes are far below what a word holds.
pub record FileOk (fs : Ramfs) (f : ℕ) : Type 0 where
  pub fits : (fs.node f).size ≤ (fs.node f).capacity
  pub small : (fs.node f).capacity < 2 ^ 32

-- What a write of `text` from the offset `base` on has done to the file, whose buffer is then
-- `buffer`, and left of the rest.
pub record Written (fs fs' : Ramfs) (f base : ℕ) (text : List ℕ) (buffer capacity : ℕ)
    : Type 0 where
  pub node_now :
      fs'.node f
      ≡ record (fs.node f) { buffer = buffer; size = base + length text; capacity = capacity }
  pub contents :
      read_bytes (fs'.bytes buffer) 0 (base + length text)
      ≡ read_bytes (fs.bytes (fs.node f).buffer) 0 base ++ text
  pub room : base + length text ≤ capacity
  pub small : capacity < 2 ^ 32
  pub root_same : fs'.root ≡ fs.root
  pub others : (g : ℕ) → f ≢ g → fs'.node g ≡ fs.node g
  pub buffers : (q : ℕ) → buffer ≢ q → fs'.bytes q ≡ fs.bytes q

pub payload-Written :
    (fs fs' : Ramfs) (f base : ℕ) (text : List ℕ) (b cap : ℕ)
    → Written fs fs' f base text b cap
    → payload fs' f ≡ read_bytes (fs.bytes (fs.node f).buffer) 0 base ++ text
payload-Written fs fs' f base text b cap w =
    ap (λ (n : RamfsNode). read_bytes (fs'.bytes n.buffer) 0 n.size) w.node_now ∙ w.contents

pub store_data-Written :
    (fs : Ramfs) (f base : ℕ) (text : List ℕ)
    → base + length text ≤ (fs.node f).capacity
    → (fs.node f).capacity < 2 ^ 32
    → Written fs (store_data fs f base text) f base text (fs.node f).buffer (fs.node f).capacity
unfolding store_data
store_data-Written fs f base text room small =
    let n = fs.node f in
    let buf = copy_in (fs.bytes n.buffer) base text in
    let fs1 = set_bytes fs n.buffer buf in
    let total : add32 base (length text) ≡ base + length text = omega (arith, room, small) in
    record {
      node_now =
          set_node_self fs1 f (record n { size = add32 base (length text) })
          ∙ ap (λ (k : ℕ). record (fs.node f) { size = k }) total;
      contents =
          ap (λ b. read_bytes b 0 (base + length text)) (set_bytes_self fs n.buffer buf)
          ∙ copied (fs.bytes n.buffer) base text;
      room = room;
      small = small;
      root_same = refl;
      others = λ g ne. set_node_ne fs1 f g (record n { size = add32 base (length text) }) ne;
      buffers = λ q ne. set_bytes_ne fs n.buffer q buf ne;
    }

-- A larger buffer that holds the first bytes of the old one.
abbrev pub moved : Ramfs → (f p base cap : ℕ) → Ramfs
moved fs f p base cap =
    set_node (set_bytes fs p (copy_first (fs.bytes p) (fs.bytes (fs.node f).buffer) base)) f
      (record (fs.node f) { buffer = p; capacity = cap })

copy_first-same :
    (old from : ℕ → ℕ) (n : ℕ) → read_bytes (copy_first old from n) 0 n ≡ read_bytes from 0 n
copy_first-same old from n =
    read_bytes-same (copy_first old from n) from 0 n
      (λ j h k. unfold copy_first in (let e : ltb j n ≡ true = ground (arith, k) in rw e refl))

pub moved-Written :
    (fs : Ramfs) (f p base cap : ℕ) (text : List ℕ)
    → base + length text ≤ cap
    → cap < 2 ^ 32
    → Written fs (store_data (moved fs f p base cap) f base text) f base text p cap
unfolding set_bytes set_node
moved-Written fs f p base cap text room small =
    let fs1 = set_bytes fs p (copy_first (fs.bytes p) (fs.bytes (fs.node f).buffer) base) in
    let fs2 = moved fs f p base cap in
    let now : RamfsNode = record (fs.node f) { buffer = p; capacity = cap } in
    let e : fs2.node f ≡ now = set_node_self fs1 f now in
    let ecap : (fs2.node f).capacity ≡ cap = ap (λ (n : RamfsNode). n.capacity) e in
    let ebuf : (fs2.node f).buffer ≡ p = ap (λ (n : RamfsNode). n.buffer) e in
    let fs' = store_data fs2 f base text in
    let w : Written fs2 fs' f base text p cap =
      subst₂ (λ b c. Written fs2 fs' f base text b c) ebuf ecap
        (store_data-Written fs2 f base text (omega (arith, room, ecap))
          (omega (arith, small, ecap))) in
    record {
      node_now =
          w.node_now
          ∙ ap
              (λ (n : RamfsNode). record n {
                buffer = p;
                size = base + length text;
                capacity = cap;
              })
              e;
      contents =
          w.contents
          ∙ ap (λ b. b ++ text)
              (ap (λ b. read_bytes (fs2.bytes b) 0 base) ebuf
                ∙ ap (λ b. read_bytes b 0 base)
                    (set_bytes_self fs p
                      (copy_first (fs.bytes p) (fs.bytes (fs.node f).buffer) base))
                ∙ copy_first-same (fs.bytes p) (fs.bytes (fs.node f).buffer) base);
      room = room;
      small = small;
      root_same = w.root_same;
      others = λ g ne. w.others g ne ∙ set_node_ne fs1 f g now ne;
      buffers = λ q ne. w.buffers q ne ∙ set_bytes_ne fs p q _ ne;
    }
