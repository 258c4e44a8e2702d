-- ===== src/Tests/OnCalls.antt =====
-- Calls of a client: reads through its cache, a seek, a duplicate and a removal; and paths.
use capio.Base.{
  ℕ, List, ◌≡◌, ◌++◌, ◌-◌, ◌+◌, ◌<◌, refl, [], ◌∷◌, none, some, true, false, string_key, nat_key,
  take, drop, length, arith, inr, if◌then◌else◌,
}
use capio.Base.Int.{pos, negsuc, eqb_ℤ}
use capio.Base.Map.{lookup}
use capio.Caches
use capio.Caches.{new_write_cache}
use capio.Descriptors.{
  Descriptors, exists_capio_fd, exists_capio_path, get_capio_fd_path, get_capio_fd_offset,
  set_capio_fd_offset,
}
use capio.Descriptors.Consistent.{IsConsistent}
use capio.Paths.{
  FilePath, slash, is_dot, is_dotdot, is_prefix, lexically_relative, mismatch, elements, filenames,
  parts, equal_texts, equal_paths, ends_with_slash, relative_elements, downs, ups, append_all,
  dotdots, join_path, starts_with,
}
use capio.Requests.{seek, dup, unlink}
use capio.Client.{Client, ReadCache, Kernel, handled, as_requests, enoent}
use capio.Client.Paths.{is_capio_path, is_capio_dir, as_string}
use capio.Client.Reading.{read_cached}
use capio.Client.Reading.Sequential.{IsReading, served}
use capio.Client.Reading.Delivered.{served_for, read_cached-delivers}
use capio.Client.Reading.Overdrawn.{read_cached-overdrawn}
use capio.Client.Seek.{seek_set, capio_lseek}
use capio.Client.Seek.Told.{from_start, capio_lseek-moves}
use capio.Client.Locks.{nothing, f_dupfd, f_dupfd_query, fcntl_handler}
use capio.Client.Locks.Shared.{fcntl_handler-dupfd}
use capio.Client.Copying.{CopyEnd}
use capio.Client.Copying.Range.{capio_copy_file_range_on_server}
use capio.Client.Copying.Served.{total, capio_copy_file_range_on_server_lem}
use capio.Client.Removing.{capio_unlink_abs}
use capio.Client.Removing.Unknown.{capio_unlink_abs-unknown}
use capio.Tests.OnClient.{tables, tables-IsConsistent}

-- A file of 16 bytes, of which the cache holds the fourth to the seventh and has given out one.
abbrev file : List ℕ
file = 0 ∷ 1 ∷ 2 ∷ 3 ∷ 4 ∷ 5 ∷ 6 ∷ 7 ∷ 8 ∷ 9 ∷ 10 ∷ 11 ∷ 12 ∷ 13 ∷ 14 ∷ 15 ∷ []

abbrev cache : ReadCache
cache = record {
  cached = 4 ∷ 5 ∷ 6 ∷ 7 ∷ [];
  last_fd = some 3;
  max_line_size = 4;
  actual_size = 4;
  cache_offset = 1;
  lines = [];
}

abbrev client : Client
client = record {
  tables = tables;
  current_dir = slash ∷ [];
  write_cache = new_write_cache 4;
  read_cache = cache;
  hints = [];
  sent = [];
  answers = [];
  kernel_answers = [];
  errno = 0;
}

client-IsReading : IsReading file 3 5 client
unfolding get_capio_fd_offset lookup
client-IsReading = record {
  last = refl;
  offset_is = refl;
  order = omega arith;
  inside = omega arith;
  held = refl;
}

read_cached-delivers_example :
    (c' : Client) × (read_cached 7 3 6 false false (served_for file 5 6 client)
      ≡ some ((length (take 6 (drop 5 file)), take 6 (drop 5 file)), c'))
    × IsReading file 3 (5 + length (take 6 (drop 5 file))) c'
read_cached-delivers_example =
    read_cached-delivers file 7 3 6 5 client client-IsReading (inr (omega arith))

read_cached-overdrawn_example :
    read_cached 7 3 11 false false (served file (5 + 3) (11 - 3) client) ≡ none
read_cached-overdrawn_example =
    read_cached-overdrawn file 7 3 11 5 2 client client-IsReading (omega arith) (omega arith)
      (omega arith) (omega arith) (omega arith)

-- A cache with nothing read ahead, and one answer.
abbrev resting : Client
resting = record client { read_cache = record cache { cache_offset = 4 }; answers = pos 1 ∷ [] }

offset_is_five : get_capio_fd_offset 3 resting.tables ≡ some (pos 5, resting.tables)
unfolding get_capio_fd_offset lookup
offset_is_five = refl

three_is_there : exists_capio_fd 3 resting.tables ≡ true
unfolding exists_capio_fd lookup
three_is_there = refl

nine_is_free : exists_capio_fd 9 resting.tables ≡ false
unfolding exists_capio_fd lookup
nine_is_free = refl

capio_lseek-moves_example :
    (c' : Client) × (capio_lseek 7 3 (pos 2) seek_set resting ≡ some (pos 2, c'))
    × (get_capio_fd_offset 3 c'.tables ≡ some (pos 2, c'.tables))
    × (c'.sent
        ≡ resting.sent
          ++ (as_requests 7 (Caches.flush resting.write_cache).requests ++ (seek 7 3 2 ∷ [])))
    × (c'.write_cache.actual_size ≡ 0)
capio_lseek-moves_example =
    capio_lseek-moves 7 3 5 (pos 2) seek_set resting refl three_is_there offset_is_five 2 (pos 1) []
      (from_start (pos 2) 5) refl

abbrev capio_dir : FilePath
capio_dir = "/" ∷ "c" ∷ []

abbrev kernel : Kernel
kernel = record {
  dev_null = pos 9;
  dup_to = λ fd fd2. fd2;
  dupfd = λ fd min_fd is_cloexec. pos 9;
  errno = 0;
  real_path = λ path. none;
  link_of_fd = λ fd. none;
  fstat_is_dir = λ fd. some false;
  is_open = λ fd. false;
  fcntl = λ fd cmd arg. pos 0;
  capio_dir = capio_dir;
  hash = λ path. 0;
}

fcntl_handler-dupfd_example :
    (c' : Client) × (fcntl_handler kernel 7 3 (f_dupfd (pos 5)) resting
      ≡ some ((handled (pos 9), nothing), c'))
    × (c'.sent ≡ resting.sent ++ (dup 7 3 9 ∷ []))
    × IsConsistent c'.tables
    × (get_capio_fd_path 9 c'.tables ≡ get_capio_fd_path 3 resting.tables)
    × (fcntl_handler kernel 7 3 (f_dupfd_query 9) c' ≡ some ((handled (pos 1), nothing), c'))
    × (d : Descriptors) × (set_capio_fd_offset 3 (pos 8) c'.tables ≡ some (tt, d))
    × (get_capio_fd_offset 9 d ≡ some (pos 8, d))
fcntl_handler-dupfd_example =
    fcntl_handler-dupfd kernel 7 3 9 (pos 5) (pos 8) resting tables-IsConsistent three_is_there
      nine_is_free refl

abbrev other_path : FilePath
other_path = "/" ∷ "c" ∷ "/" ∷ "g" ∷ []

other_path_is_capio : is_capio_path kernel other_path ≡ true
unfolding is_capio_path is_prefix lexically_relative mismatch elements filenames parts equal_texts
    ends_with_slash relative_elements downs ups append_all dotdots join_path starts_with is_dot
    is_dotdot
other_path_is_capio = refl

other_path_is_inside : is_capio_dir kernel other_path ≡ false
unfolding is_capio_dir equal_paths elements filenames parts equal_texts ends_with_slash
other_path_is_inside = refl

other_path_is_unknown : exists_capio_path (as_string other_path) resting.tables ≡ false
unfolding exists_capio_path lookup
other_path_is_unknown = refl

capio_unlink_abs-unknown_example : capio_unlink_abs kernel 7 other_path false resting ≡ (
    if eqb_ℤ (pos 1) (negsuc 0)
    then some (
      negsuc 0,
      record resting {
        answers = [];
        sent = resting.sent ++ (unlink 7 (as_string other_path) ∷ []);
        errno = enoent;
      },
    )
    else none)
capio_unlink_abs-unknown_example =
    capio_unlink_abs-unknown kernel 7 other_path resting (pos 1) [] other_path_is_capio
      other_path_is_inside other_path_is_unknown refl

abbrev name : FilePath
name = "x" ∷ []

-- Two ends of a copy, and a server that copies three bytes, then two, and then says that the input ends.
abbrev end_at_five : CopyEnd
end_at_five = record {
  fd = 3;
  offset = none;
  is_capio = true;
  is_open = true;
  flags = 0;
  is_dir = false;
  is_regular = true;
  size = 10;
  position = pos 5;
  saved_fd_offset = pos 5;
}

abbrev copying : Client
copying = record resting { answers = pos 3 ∷ pos 2 ∷ pos 0 ∷ [] }

five_is_less : total (3 ∷ 2 ∷ []) < 8
unfolding total
five_is_less = omega arith

capio_copy_file_range_on_server_lem_example :
    (c' : Client) × (input' : CopyEnd) × (output' : CopyEnd) × (capio_copy_file_range_on_server 7
        end_at_five
        (record end_at_five { fd = 4; position = pos 0 })
        8
        copying
      ≡ some ((total (3 ∷ 2 ∷ []), input', output'), c'))
    × (c'.answers ≡ [])
    × (input'.position ≡ pos (5 + total (3 ∷ 2 ∷ [])))
    × (output'.position ≡ pos (0 + total (3 ∷ 2 ∷ [])))
capio_copy_file_range_on_server_lem_example =
    capio_copy_file_range_on_server_lem (3 ∷ 2 ∷ []) [] 7 8 5 0 end_at_five
      (record end_at_five { fd = 4; position = pos 0 }) copying refl
      (omega arith, (omega arith, tt)) five_is_less refl refl refl
