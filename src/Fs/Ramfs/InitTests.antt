-- ===== src/Fs/Ramfs/InitTests.antt =====
-- fs/ramfs.c at start, with an allocator that never reuses an address.
use mathlib.Core.Option
use raptor_kernel.Prelude.{◌≡◌, refl, false, some, []}
use raptor_kernel.Prelude.Text.{bytes}
use raptor_kernel.Mm.Allocator.Bump.{bump, nothing_given}
use raptor_kernel.Fs.Ramfs.{Ramfs, set_node, attach, find_child, find_loop}
use raptor_kernel.Fs.Ramfs.Walk.{
  skip_slashes, component, step, walk_round, walk_loop, starts_at, walk, ramfs_resolve, ramfs_path,
  ancestors, print_names, append_text,
}
use raptor_kernel.Fs.Ramfs.Files.{
  node_new, create_at, ramfs_create, grow, new_buffer, ensure_room, store_data, ramfs_write,
  set_bytes,
}
use raptor_kernel.Fs.Ramfs.Init.{preload_file, preload_files, make_first_dirs, ramfs_init}

abbrev blank : Ramfs
blank = record {
  node = λ i. record {
    name = [];
    is_dir = false;
    buffer = 0;
    size = 0;
    capacity = 0;
    parent = 0;
    children = 0;
    next = 0;
  };
  root = 0;
  bytes = λ p i. 0;
}

-- "/home/user" is the fifth node, and "/etc/motd" has its text.
started :
    Option.map
      (λ r. ramfs_resolve 40 r.0 0 (bytes "/home/user"))
      (ramfs_init bump 40 blank nothing_given)
    ≡ some (some 5)
unfolding ramfs_init preload_files preload_file make_first_dirs node_new ramfs_create create_at
    ramfs_write ensure_room grow new_buffer store_data set_bytes set_node attach ramfs_resolve walk
    walk_loop walk_round step component skip_slashes starts_at find_child find_loop
started = refl

-- ramfs_path gives the path back, and the message of the day has its text.
user_path :
    Option.map (λ r. ramfs_path r.0 5 256) (ramfs_init bump 40 blank nothing_given)
    ≡ some (bytes "/home/user")
unfolding ramfs_init preload_files preload_file make_first_dirs node_new ramfs_create create_at
    ramfs_write ensure_room grow new_buffer store_data set_bytes set_node attach ramfs_path
    ancestors print_names append_text walk walk_loop walk_round step component skip_slashes
    starts_at find_child find_loop
user_path = refl
