-- ===== src/Client/Locks/Shared.antt =====
-- A descriptor that fcntl duplicates, and what F_DUPFD_QUERY says of it: capio/posix/handlers/fcntl.hpp.
use capio.Base.{
  ℕ, ◌++◌, ◌≡◌, refl, sym, ◌∙◌, some, [], ◌∷◌, true, false, nat_beq, nat_beq_iff, arith, nat_key,
}
use capio.Base.Int.{ℤ, pos}
use capio.Base.Map.{lookup}
use capio.Descriptors.{
  OpenFile, Descriptors, exists_capio_fd, get_capio_fd_path, get_capio_fd_offset,
  set_capio_fd_offset,
}
use capio.Descriptors.Consistent.{IsConsistent}
use capio.Descriptors.Duplicated.{dup_capio_fd_lem, shared_offset}
use capio.Requests.{dup}
use capio.Client.{Client, Kernel, handled, on_tables, send}
use capio.Client.Fds.{capio_fcntl_dupfd}
use capio.Client.Locks.{nothing, f_dupfd, f_dupfd_query, run_command, fcntl_handler, dupfd_query}

module _ (k : Kernel) (tid fd other : ℕ) (mine its : OpenFile) (c : Client)
    (f : lookup fd c.tables.files ≡ some mine) (g : lookup other c.tables.files ≡ some its)
    (e : mine.offset ≡ its.offset) where
  -- The query says that two descriptors with one offset are of one open file.
  query-shared :
      fcntl_handler k tid fd (f_dupfd_query other) c ≡ some ((handled (pos 1), nothing), c)
  unfolding fcntl_handler run_command dupfd_query exists_capio_fd
  query-shared =
      let same : nat_beq mine.offset its.offset ≡ true = (nat_beq_iff mine.offset its.offset).1 e in
      ground (arith, f, g, same)

-- F_DUPFD of a descriptor in tables that agree, for which the kernel gives a number that is not
-- in them: the number is returned, the server is told, the tables still agree, the copy has the
-- path of the descriptor, F_DUPFD_QUERY says that the two are of one open file, and an offset
-- that the descriptor is given is the offset of the copy.
pub fcntl_handler-dupfd :
    (k : Kernel) (tid fd res : ℕ) (arg new : ℤ) (c : Client)
    → IsConsistent c.tables
    → exists_capio_fd fd c.tables ≡ true
    → exists_capio_fd res c.tables ≡ false
    → k.dupfd fd arg false ≡ pos res
    → (c' : Client) × (fcntl_handler k tid fd (f_dupfd arg) c
        ≡ some ((handled (pos res), nothing), c'))
      × (c'.sent ≡ c.sent ++ (dup tid fd res ∷ []))
      × IsConsistent c'.tables
      × (get_capio_fd_path res c'.tables ≡ get_capio_fd_path fd c.tables)
      × (fcntl_handler k tid fd (f_dupfd_query res) c' ≡ some ((handled (pos 1), nothing), c'))
      × (d : Descriptors) × (set_capio_fd_offset fd new c'.tables ≡ some (tt, d))
      × (get_capio_fd_offset res d ≡ some (new, d))
unfolding fcntl_handler run_command capio_fcntl_dupfd on_tables send
fcntl_handler-dupfd k tid fd res arg new c v known free kernel =
    let (d, path, file, run, w, p, q, f, g) = dup_capio_fd_lem fd res false c.tables v known free in
    let c' : Client = record c { tables = d; sent = c.sent ++ (dup tid fd res ∷ []) } in
    let (d2, set, get) =
      shared_offset fd res file (record file { is_cloexec = false }) d new f g refl in
    (
      c',
      ground (arith, known, kernel, run),
      refl,
      w,
      q ∙ sym p,
      query-shared k tid fd res file (record file { is_cloexec = false }) c' f g refl,
      d2,
      set,
      get,
    )
