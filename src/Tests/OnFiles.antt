-- ===== src/Tests/OnFiles.antt =====
-- A file in memory that holds four bytes, and a host with room for it.
use capio.Base.{◌+◌, ◌≡◌, refl, [], ◌∷◌, some, arith, leb, nat_beq, true, false, ◌||◌}
use capio.Quota.{Readings}
use capio.Buffer.{System, FileBuffer, heap, copy_sectors}
use capio.Sectors.{Sectors, get_file_size}
use capio.File.{CapioFile, new_file, closed, deletable}
use capio.File.Data.{IsSound}
use capio.File.Write.{write_file, write_file-Written, Written}
use capio.File.Total.{InMemory, write_file_total}
use capio.File.Life.{opens, closes, run, count_opens, count_closes, run_lem}

abbrev host : Readings
host = record { mem_available = some 1; cgroup = some (600, 500); inactive = 100 }

abbrev sys : System
sys = record {
  readings = host;
  fresh = λ x. 0;
  disk = λ x. 0;
  open_ok = true;
  ftruncate_ok = true;
  mmap_ok = true;
  close_ok = true;
}

-- Four bytes of data in a block of eight.
abbrev buffer : FileBuffer
buffer = record { storage = heap; block = some (λ x. x + 7); size = 8; fd = false; map_len = 0 }

abbrev four : Sectors
four = (0, 4) ∷ []

abbrev grown : FileBuffer
grown = record buffer { block = some (copy_sectors four (λ x. x + 7) (λ x. 0)); size = 16 }

-- A new file, and what the first write makes of it.
abbrev file : CapioFile
file = new_file false 0 false 8 1

file-IsSound : IsSound file
unfolding new_file
file-IsSound = record {
  sorted = tt;
  holds = record {
    within = unfold get_file_size in (omega arith);
    nothing = λ e. refl;
    mapping = λ e. omega arith;
  };
}

file-InMemory : InMemory file
unfolding new_file
file-InMemory = record { not_permanent = refl; on_heap = refl }

write_file_total_example :
    (f' : CapioFile) × (write_file sys 2 (5 ∷ 6 ∷ []) file ≡ some f')
    × Written 2 (5 ∷ 6 ∷ []) file f'
write_file_total_example = write_file_total sys 2 (5 ∷ 6 ∷ []) file file-IsSound file-InMemory

abbrev after : CapioFile
after = (write_file_total sys 2 (5 ∷ 6 ∷ []) file file-IsSound file-InMemory).0

write_file-Written_example : Written 2 (5 ∷ 6 ∷ []) file after
write_file-Written_example =
    write_file-Written sys 2 (5 ∷ 6 ∷ []) file after file-IsSound
      (write_file_total sys 2 (5 ∷ 6 ∷ []) file file-IsSound file-InMemory).1

run_lem_example :
    (deletable (run (opens ∷ closes ∷ []) file)
      ≡ leb (count_opens (opens ∷ closes ∷ [])) (count_closes (opens ∷ closes ∷ [])))
    × (closed (run (opens ∷ closes ∷ []) file)
        ≡ (nat_beq 1 0 || nat_beq (count_closes (opens ∷ closes ∷ [])) 1))
run_lem_example = run_lem false 0 false 8 1 (opens ∷ closes ∷ [])
