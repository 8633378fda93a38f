-- ===== src/Version.antt =====
-- include/raptor/version.h: the names of the kernel.
use raptor_kernel.Prelude.{ℕ, List}
use raptor_kernel.Prelude.Text.{bytes}

abbrev pub raptor_name : List ℕ
raptor_name = bytes "Raptor"

abbrev pub raptor_version : List ℕ
raptor_version = bytes "0.2.1"

abbrev pub raptor_codename : List ℕ
raptor_codename = bytes "Velociraptor"

abbrev pub raptor_arch : List ℕ
raptor_arch = bytes "i386"
