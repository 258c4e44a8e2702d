-- ===== src/Client/Removing/Unknown.antt =====
-- The removal of a file that the process has never opened: capio_unlink_abs of
-- capio/posix/handlers/unlink.hpp.
use capio.Base.{
  ℕ, ◌≡◌, ◌++◌, Bool-cases, inl, inr, none, some, List, [], ◌∷◌, true, false, arith, if◌then◌else◌,
  string_key,
}
use capio.Base.Int.{ℤ, negsuc, eqb_ℤ}
use capio.Base.Map.{lookup}
use capio.Descriptors.{exists_capio_path, delete_capio_path}
use capio.Descriptors.Consistent.{some_entry-none}
use capio.Paths.{FilePath}
use capio.Requests.{unlink}
use capio.Client.{Client, Kernel, on_tables, ask, next_answer, send, fail, enoent}
use capio.Client.Paths.{is_capio_path, is_capio_dir, as_string}
use capio.Client.Removing.{capio_unlink_abs, removal, after_removal}

-- An unlink of a file in the directory of CAPIO that is in no table of the client, once the
-- server has answered: it fails with ENOENT if the server says so, and throws if the server has
-- removed the file.
pub capio_unlink_abs-unknown :
    (k : Kernel) (tid : ℕ) (path : FilePath) (c : Client) (a : ℤ) (rest : List ℤ)
    → is_capio_path k path ≡ true
    → is_capio_dir k path ≡ false
    → exists_capio_path (as_string path) c.tables ≡ false
    → c.answers ≡ a ∷ rest
    → capio_unlink_abs k tid path false c ≡ (
        if eqb_ℤ a (negsuc 0)
        then some (
          negsuc 0,
          record c {
            answers = rest;
            sent = c.sent ++ (unlink tid (as_string path) ∷ []);
            errno = enoent;
          },
        )
        else none)
unfolding capio_unlink_abs removal after_removal ask next_answer send fail on_tables
    delete_capio_path exists_capio_path
capio_unlink_abs-unknown k tid path c a rest capio not_dir unknown answers =
    let n : lookup (as_string path) c.tables.paths ≡ none = some_entry-none _ unknown in
    elim (Bool-cases (eqb_ℤ a (negsuc 0))) [
      | inl e ↦ ground (arith, capio, not_dir, answers, e)
      | inr e ↦ ground (arith, capio, not_dir, answers, e, n)
    ]
