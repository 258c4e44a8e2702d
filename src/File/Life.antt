-- ===== src/File/Life.antt =====
-- The life of a file: the counts of opens and closes, the commit, and the threads that wait.
use capio.Base.{ℕ, suc, ◌+◌, ◌≤◌, ◌≡◌, List, [], ◌∷◌, leb, nat_beq, arith, Bool, true, ◌||◌}
use capio.Base.Int.{pos, pos_part, neg_part, +ℤ_parts, -ℤ_parts}
use capio.Sectors.Order.{IsValid}
use capio.Sectors.Cover.{get_file_size-insert_sector}
use capio.File.{
  CapioFile, new_file, open_file, close_file, closed, deletable, data_available, set_committed,
  add_sector,
}

pub data Event : Type 0 where
  opens closes : Event

pub run : List Event → CapioFile → CapioFile
run [] f = f
run (opens ∷ es) f = run es (open_file f)
run (closes ∷ es) f = run es (close_file f)

abbrev pub count_opens : List Event → ℕ
count_opens [] = 0
count_opens (opens ∷ es) = suc (count_opens es)
count_opens (closes ∷ es) = count_opens es

abbrev pub count_closes : List Event → ℕ
count_closes [] = 0
count_closes (opens ∷ es) = count_closes es
count_closes (closes ∷ es) = suc (count_closes es)

run-n_opens :
    (es : List Event) (f : CapioFile)
    → pos_part (run es f).n_opens + count_closes es + neg_part f.n_opens
      ≡ neg_part (run es f).n_opens + count_opens es + pos_part f.n_opens
unfolding run open_file close_file
run-n_opens [] f = omega arith
run-n_opens (opens ∷ es) f = omega (arith, run-n_opens es (open_file f), +ℤ_parts f.n_opens (pos 1))
run-n_opens (closes ∷ es) f =
    omega (arith, run-n_opens es (close_file f), -ℤ_parts f.n_opens (pos 1))

run-n_close :
    (es : List Event) (f : CapioFile)
    → ((run es f).n_close ≡ f.n_close + count_closes es)
      × ((run es f).n_close_expected ≡ f.n_close_expected)
unfolding run open_file close_file
run-n_close [] f = omega arith
run-n_close (opens ∷ es) f = run-n_close es (open_file f)
run-n_close (closes ∷ es) f = let (p, q) = run-n_close es (close_file f) in (omega arith, q)

module _ (directory : Bool) (n_files : ℕ) (permanent : Bool) (size n_close : ℕ)
    (es : List Event) where
  -- After any opens and closes of a new file, it may be deleted exactly if there were at least as
  -- many closes as opens, and it counts as closed exactly if no number of closes is expected or
  -- just that number was made.
  pub run_lem :
      let f = run es (new_file directory n_files permanent size n_close) in
      (deletable f ≡ leb (count_opens es) (count_closes es))
      × (closed f ≡ (nat_beq n_close 0 || nat_beq (count_closes es) n_close))
  unfolding deletable closed new_file
  run_lem =
      let f : CapioFile = new_file directory n_files permanent size n_close in
      (ground (arith, run-n_opens es f), ground (arith, run-n_close es f))

-- A thread that waits for data up to `offset` goes on once the data that it waits for has come: a
-- sector whose end reaches the offset, or the commit, lets it go on, and no later sector takes that
-- back.
pub data_available_lem :
    (offset s e : ℕ) (f : CapioFile)
    → IsValid f.sectors
    → s ≤ e
    → (data_available offset (add_sector s e f) ≡ (leb offset e || data_available offset f))
      × (data_available offset (set_committed true f) ≡ true)
unfolding data_available add_sector set_committed
data_available_lem offset s e f v h =
    (ground (arith, get_file_size-insert_sector s e f.sectors h v), ground arith)
