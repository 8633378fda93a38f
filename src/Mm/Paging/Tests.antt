-- ===== src/Mm/Paging/Tests.antt =====
-- mm/paging.c on a machine of 8 MiB.
use raptor_kernel.Mm.Paging.Mapped.{paging_mapped_mib, paging_mapped_mib_lem}
use raptor_kernel.Prelude.{◌≡◌, arith, refl}
use raptor_kernel.Mm.Paging.{paging_init}

paging_mapped_mib_lem_example : paging_mapped_mib (paging_init 8188 (λ _. 0)) ≡ 8
paging_mapped_mib_lem_example = paging_mapped_mib_lem 8188 (λ _. 0) (λ j. refl) (omega arith)
