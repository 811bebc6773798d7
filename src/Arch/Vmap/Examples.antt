-- ===== src/Arch/Vmap/Examples.antt =====
-- Page tables that the tests start from: an image of one page of code and one of data at 0xc0100000,
-- and what `vmap_init` of arch/i386/vmap.c makes of it.
use twcos.Common.{ℕ, zero, suc, ◌/◌, ◌≤◌, ◌≡◌, refl, true, false, [], ◌∷◌, arith, replicate}
use twcos.Arch.Vmap.{Vmap}
use twcos.Arch.Vmap.Asids.{slot}
use twcos.Arch.Vmap.Tables.{IsVmap, entry, has_table}
use twcos.Arch.Vmap.Init.{Layout, fill_table, init_tables, install_directories}
use twcos.Arch.Vmap.Missing.{put_tables}
use twcos.Arch.Vmap.Init.Directory.{IsBooted, init_tables-IsVmap}

abbrev pub image : Layout
image = record {
  code_start = 0xc010_0000;
  data_start = 0xc010_1000;
  heap_page = 0xc010_2000;
  offset = 0xc000_0000;
  pgktbl = 90;
}

abbrev pub booted : Vmap
booted = record {
  asids = replicate 8 (record { vid = 0; seq = 0 });
  seq = 0;
  memory = λ p k. 0;
  dir = 95;
  pgdirs = 100;
  mmap =
      record {
        base = 200;
        count = 32;
        free = 1;
        available = (false ∷ true ∷ replicate 30 false) ∷ [];
      }
      ∷ [];
}

unused_slots : (n i : ℕ) → (slot (replicate n (record { vid = 0; seq = 0 })) i).seq ≤ 0
unused_slots zero i = omega arith
unused_slots (suc n) zero = omega arith
unused_slots (suc n) (suc i) = unused_slots n i

pub booted-IsBooted : IsBooted image booted
booted-IsBooted = record {
  clocked = record { eight = refl; past = unused_slots 8 };
  positive = omega arith;
  apart = λ i h e. omega arith;
  empty = λ i k h h'. refl;
  its_page = record {
    nonzero = λ e. omega arith;
    not_used = λ e. omega arith;
    no_directory = λ i h e. omega arith;
  };
  small = omega arith;
  low = omega arith;
  one_table = omega arith;
  ordered = omega arith;
}

abbrev pub ready : Vmap
ready = init_tables image booted

pub ready-IsVmap : IsVmap ready
ready-IsVmap = (init_tables-IsVmap image booted booted-IsBooted).0

pub ready_table : (v : ℕ) → v / 1024 ≡ 768 → has_table ready v ≡ true
ready_table = (init_tables-IsVmap image booted booted-IsBooted).1

pub ready_seq : ready.seq ≡ 0
ready_seq = (init_tables-IsVmap image booted booted-IsBooted).2

-- The first page of the image.
pub ready_code : entry ready 0xc0100 ≡ 0x10_0003
unfolding init_tables install_directories fill_table put_tables
ready_code = refl
