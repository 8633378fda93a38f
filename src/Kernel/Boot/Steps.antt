-- ===== src/Kernel/Boot/Steps.antt =====
-- The steps of kmain of kernel/main.c that print: none of them stops it.
use Prim.Native.String.{String}
use raptor_kernel.Prelude.{
  ℕ, suc, ◌/◌, ◌≤◌, ◌≡◌, refl, ap, ◌∙◌, true, Option, none, some, List, [], ◌∷◌, ◌++◌, ◌==◌,
  if◌then◌else◌, length, arith, ==_iff,
}
use raptor_kernel.Prelude.Text.{bytes}
use raptor_kernel.Kprintf.{Arg, word, string, kvprintf}
use raptor_kernel.Kprintf.Total.{FormatFits, kvprintf-Ends}
use raptor_kernel.Console.{Console, console_write, console_set_color}
use raptor_kernel.Kernel.Panic.{panic}
use raptor_kernel.Mm.Kheap.{Memory, kheap_end_addr}
use raptor_kernel.Mm.Pmm.{Pmm, kernel_vbase, max_frames, pmm_init, pmm_total_kib}
use raptor_kernel.Mm.Pmm.Boot.{pmm_total_kib_lem}
use raptor_kernel.Mm.Paging.{paging_init}
use raptor_kernel.Mm.Paging.Mapped.{paging_mapped_mib, paging_mapped_mib-word}
use raptor_kernel.Version.{raptor_name, raptor_version, raptor_codename}
use raptor_kernel.Kernel.Boot.{
  Given, Machine, Boot, running, halted, failed, multiboot_magic, with_text, shown, ok_mark,
  console_init, drivers_up, paging_load, paging_up, memory_up, bring_up,
}

pub with_text-out :
    (m : Machine) (fmt : String) (args : List Arg) (go : Console → Boot)
    → FormatFits (suc (length (bytes fmt))) (bytes fmt) args
    → (out : List ℕ) × (with_text m fmt args go ≡ go (console_write m.console out))
      × (kvprintf (suc (length (bytes fmt))) (bytes fmt) args ≡ some out)
with_text-out m fmt args go fits =
    let (out, e) = kvprintf-Ends (suc (length (bytes fmt))) (bytes fmt) args fits in
    (
      out,
      ap
          (λ o.
            elim (elim o as (λ x. Option Console) [
              | none ↦ none
              | some out' ↦ some (console_write m.console out')
            ])
              as (λ x. Boot) [ none ↦ failed | some con ↦ go con ])
          e,
      e,
    )

with_text-run :
    (m : Machine) (fmt : String) (args : List Arg) (go : Console → Boot)
    → FormatFits (suc (length (bytes fmt))) (bytes fmt) args
    → (con : Console) × (with_text m fmt args go ≡ go con)
with_text-run m fmt args go fits =
    let (out, e, printed) = with_text-out m fmt args go fits in (console_write m.console out, e)

paging_up-run :
    (g : Given) (m : Machine)
    → (con : Console) × (paging_up g m
        ≡ running (record m {
          page_directory = paging_init (pmm_total_kib m.pmm) m.page_directory;
          sent = m.sent ++ paging_load g.directory_at;
          console = con;
        }))
unfolding paging_up FormatFits
paging_up-run g m =
    let pd = paging_init (pmm_total_kib m.pmm) m.page_directory in
    let m1 : Machine = record m {
      page_directory = pd;
      sent = m.sent ++ paging_load g.directory_at;
      console = ok_mark m.console;
    } in
    with_text-run m1 " ] Paging enabled (%u MiB at %08x, NULL page unmapped)\n"
      (word (paging_mapped_mib pd) ∷ word kernel_vbase ∷ [])
      (λ con. running (record m1 { console = con })) (paging_mapped_mib-word pd, (omega arith, tt))

pub memory_up-run :
    (fuel : ℕ) (g : Given) (m : Machine) (p : Pmm)
    → pmm_init fuel g.mbi (kheap_end_addr m.heap) m.pmm ≡ some p
    → p.total_frames ≤ max_frames
    → (con : Console) × (memory_up fuel g m
        ≡ running (record m {
          pmm = p;
          page_directory = paging_init (pmm_total_kib p) m.page_directory;
          sent = m.sent ++ paging_load g.directory_at;
          console = con;
        }))
unfolding memory_up FormatFits
memory_up-run fuel g m p e few =
    let kib = pmm_total_kib_lem p few in
    let m1 : Machine = record m { pmm = p; console = ok_mark m.console } in
    let go : Console → Boot = λ con. paging_up g (record m1 { console = con }) in
    let (con, run) =
      with_text-run m1 " ] Physical memory: %u MiB detected\n" (word (pmm_total_kib p / 1024) ∷ [])
        go (omega (arith, kib, few), tt) in
    let (con', run') = paging_up-run g (record m1 { console = con }) in
    let counted : Pmm → Boot = λ p.
      let m1 : Machine = record m { pmm = p; console = ok_mark m.console } in
      with_text m1 " ] Physical memory: %u MiB detected\n" (word (pmm_total_kib p / 1024) ∷ [])
        (λ con. paging_up g (record m1 { console = con })) in
    (con', ap (λ o. elim o as (λ x. Boot) [ none ↦ failed | some p ↦ counted p ]) e ∙ run ∙ run')

pub bring_up-run :
    (fuel : ℕ) (g : Given) (memory : Memory) (m : Machine)
    → g.magic ≡ multiboot_magic
    → (con : Console) × (bring_up fuel g memory m
        ≡ memory_up fuel g (drivers_up g memory (record (console_init m) { console = con })))
unfolding bring_up FormatFits
bring_up-run fuel g memory m e =
    let known : (g.magic == multiboot_magic) ≡ true = (==_iff g.magic multiboot_magic).1 e in
    let m1 : Machine = shown (console_init m) (λ con. console_set_color con 10 0) in
    let go : Console → Boot = λ con.
      let m2 : Machine = record m1 { console = console_set_color con 7 0 } in
      if g.magic == multiboot_magic
      then memory_up fuel g (drivers_up g memory m2)
      else elim (panic m2.console (bytes "not loaded by a Multiboot bootloader (magic %08x)")
          (word g.magic ∷ [])) [ none ↦ failed | some con' ↦ halted con' ] in
    let (con, run) =
      with_text-run m1 "\n%s %s (%s) booting...\n\n"
        (string (some raptor_name)
          ∷ string (some raptor_version)
          ∷ string (some raptor_codename)
          ∷ [])
        go (tt, (tt, (tt, tt))) in
    (console_set_color con 7 0, run ∙ rw known refl)
