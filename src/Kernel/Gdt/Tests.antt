-- ===== src/Kernel/Gdt/Tests.antt =====
-- kernel/gdt.c: the code segment of the kernel.
use raptor_kernel.Prelude.{◌≡◌, refl}
use raptor_kernel.Kernel.Gdt.{gdt_entry, gdt_set, gdt_init}

user_code : (gdt_init (λ _. gdt_entry 0 0 0 0) 3).access ≡ 0xfa
unfolding gdt_init gdt_set gdt_entry
user_code = refl
