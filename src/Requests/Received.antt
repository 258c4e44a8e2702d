-- ===== src/Requests/Received.antt =====
-- The server reads what the client asked for.
use capio.Base.{
  ℕ, ◌/◌, ◌%◌, ◌^◌, ◌<◌, ◌≡◌, refl, ap, ◌∙◌, sym, some, List, [], ◌∷◌, true, false, arith,
}
use Prim.Native.Char.{Char}
use capio.Requests.Text.{
  Field, num, word, Conversion, int, padded, printed_field, printed_fields, behind, scan, scan_code,
  from_chars,
}
use capio.Requests.Scanned.{
  IsWord, AllRead, code-digit, digit-is_digit, scan-printed_fields, scan-space,
}
use capio.Requests.{
  Request, access, clone, close, create, create_exclusive, dup, exit_group, fstat, getdents,
  handshake_named, handshake_anonymous, mkdir, open_file, read, rename, seek, seek_data, seek_end,
  seek_hole, stat, unlink, write, rmdir, copy_file_range, Handler, access_handler, clone_handler,
  close_handler, create_handler, create_exclusive_handler, dup_handler, exit_group_handler,
  fstat_handler, getdents_handler, handshake_named_handler, handshake_anonymous_handler,
  mkdir_handler, open_handler, read_handler, rename_handler, lseek_handler, seek_data_handler,
  seek_end_handler, seek_hole_handler, stat_handler, unlink_handler, write_handler, rmdir_handler,
  copy_file_range_handler, code, fields, printed, print_request, format, arguments, select,
  read_request,
}

from_chars-padded :
    (n : ℕ) (t : List Char) → n < 10000 → from_chars 4 (padded n t) ≡ some (n, behind t)
unfolding from_chars scan_code padded
from_chars-padded n t h =
    rw
      (
        digit-is_digit (n / 1000 % 10) (omega arith),
        digit-is_digit (n / 100 % 10) (omega arith),
        digit-is_digit (n / 10 % 10) (omega arith),
        digit-is_digit (n % 10) (omega arith),
        code-digit (n / 1000 % 10) (omega arith),
        code-digit (n / 100 % 10) (omega arith),
        code-digit (n / 10 % 10) (omega arith),
        code-digit (n % 10) (omega arith),
      )
      (ap (λ m. some (m, behind t)) (omega arith))

read_text :
    (n : ℕ) (t : List Char) (h : Handler) (fs : List Field)
    → n < 10000
    → select n ≡ some h
    → scan (format h) (behind t) ≡ some fs
    → read_request (padded n t) ≡ arguments h fs
unfolding read_request
read_text n t h fs small chosen scanned =
    rw (read_request, from_chars-padded n t small, chosen, scanned)

scan-behind :
    (cs : List Conversion) (fs : List Field)
    → AllRead cs fs
    → scan cs (behind (printed_fields fs)) ≡ some fs
unfolding printed_fields
scan-behind cs [] h = scan-printed_fields cs [] h
scan-behind cs (f ∷ fs) h =
    sym (scan-space cs (printed_field f (printed_fields fs))) ∙ scan-printed_fields cs (f ∷ fs) h

read_fields :
    (n : ℕ) (h : Handler) (fs : List Field)
    → n < 10000
    → select n ≡ some h
    → AllRead (format h) fs
    → read_request (padded n (printed_fields fs)) ≡ arguments h fs
read_fields n h fs small chosen all =
    read_text n (printed_fields fs) h fs small chosen (scan-behind (format h) fs all)

abbrev pub IsInt : ℕ → Type 0
IsInt n = n < 2 ^ 31

abbrev pub IsLong : ℕ → Type 0
IsLong n = n < 2 ^ 63

-- Threads, processes and descriptors are an int, counts and offsets a long, and paths and names have
-- no space in them.
abbrev pub Fits : Request → Type 0
Fits (access tid path) = IsLong tid × IsWord path
Fits (clone parent_tid child_tid) = IsInt parent_tid × IsInt child_tid
Fits (close tid fd) = IsInt tid × IsInt fd
Fits (create tid fd path) = IsInt tid × IsInt fd × IsWord path
Fits (create_exclusive tid fd path) = IsInt tid × IsInt fd × IsWord path
Fits (dup tid old_fd new_fd) = IsInt tid × IsInt old_fd × IsInt new_fd
Fits (exit_group tid) = IsInt tid
Fits (fstat tid fd) = IsInt tid × IsInt fd
Fits (getdents is64bit tid fd count) = IsInt tid × IsInt fd × IsLong count
Fits (handshake_named tid pid app_name wait) = IsInt tid × IsInt pid × IsWord app_name
Fits (handshake_anonymous tid pid) = IsInt tid × IsInt pid
Fits (mkdir tid path) = IsInt tid × IsWord path
Fits (open_file tid fd path) = IsInt tid × IsInt fd × IsWord path
Fits (read tid fd count) = IsInt tid × IsInt fd × IsLong count
Fits (rename tid old_path newpath) = IsInt tid × IsWord old_path × IsWord newpath
Fits (seek tid fd offset) = IsInt tid × IsInt fd × IsLong offset
Fits (seek_data tid fd offset) = IsInt tid × IsInt fd × IsLong offset
Fits (seek_end tid fd) = IsInt tid × IsInt fd
Fits (seek_hole tid fd offset) = IsInt tid × IsInt fd × IsLong offset
Fits (stat tid path) = IsInt tid × IsWord path
Fits (unlink tid path) = IsInt tid × IsWord path
Fits (write tid fd count) = IsInt tid × IsInt fd × IsLong count
Fits (rmdir tid dir_path) = IsInt tid × IsWord dir_path
Fits (copy_file_range tid fd_in fd_out offset_in offset_out count) =
    IsInt tid × IsInt fd_in × IsInt fd_out × IsLong offset_in × IsLong offset_out × IsLong count

-- The server does not tell the two requests of getdents apart.
abbrev pub as_received : Request → Request
as_received (getdents is64bit tid fd count) = getdents true tid fd count
as_received r = r

read_request-printed : (r : Request) → Fits r → read_request (printed r) ≡ some (as_received r)
unfolding printed code fields select format arguments
read_request-printed (access tid path) h =
    read_fields 0 access_handler (num tid ∷ word path ∷ []) (omega arith) refl (h.0, (h.1, tt))
read_request-printed (clone parent_tid child_tid) h =
    read_text 1 (printed_fields (word "" ∷ num parent_tid ∷ num child_tid ∷ [])) clone_handler
      (num parent_tid ∷ num child_tid ∷ []) (omega arith) refl
      (unfold printed_fields in
        unfold printed_field in
        scan-printed_fields (int ∷ int ∷ []) (num parent_tid ∷ num child_tid ∷ []) (h.0, (h.1, tt)))
read_request-printed (close tid fd) h =
    read_fields 2 close_handler (num tid ∷ num fd ∷ []) (omega arith) refl (h.0, (h.1, tt))
read_request-printed (create tid fd path) h =
    read_fields 3 create_handler (num tid ∷ num fd ∷ word path ∷ []) (omega arith) refl
      (h.0, (h.1, (h.2, tt)))
read_request-printed (create_exclusive tid fd path) h =
    read_fields 4 create_exclusive_handler (num tid ∷ num fd ∷ word path ∷ []) (omega arith) refl
      (h.0, (h.1, (h.2, tt)))
read_request-printed (dup tid old_fd new_fd) h =
    read_fields 5 dup_handler (num tid ∷ num old_fd ∷ num new_fd ∷ []) (omega arith) refl
      (h.0, (h.1, (h.2, tt)))
read_request-printed (exit_group tid) h =
    read_fields 6 exit_group_handler (num tid ∷ []) (omega arith) refl (h, tt)
read_request-printed (fstat tid fd) h =
    read_fields 7 fstat_handler (num tid ∷ num fd ∷ []) (omega arith) refl (h.0, (h.1, tt))
read_request-printed (getdents false tid fd count) h =
    read_fields 8 getdents_handler (num tid ∷ num fd ∷ num count ∷ []) (omega arith) refl
      (h.0, (h.1, (h.2, tt)))
read_request-printed (getdents true tid fd count) h =
    read_fields 9 getdents_handler (num tid ∷ num fd ∷ num count ∷ []) (omega arith) refl
      (h.0, (h.1, (h.2, tt)))
read_request-printed (handshake_named tid pid app_name false) h =
    read_fields 10 handshake_named_handler (num tid ∷ num pid ∷ word app_name ∷ num 0 ∷ [])
      (omega arith) refl (h.0, (h.1, (h.2, ((omega arith), tt))))
read_request-printed (handshake_named tid pid app_name true) h =
    read_fields 10 handshake_named_handler (num tid ∷ num pid ∷ word app_name ∷ num 1 ∷ [])
      (omega arith) refl (h.0, (h.1, (h.2, ((omega arith), tt))))
read_request-printed (handshake_anonymous tid pid) h =
    read_fields 11 handshake_anonymous_handler (num tid ∷ num pid ∷ []) (omega arith) refl
      (h.0, (h.1, tt))
read_request-printed (mkdir tid path) h =
    read_fields 12 mkdir_handler (num tid ∷ word path ∷ []) (omega arith) refl (h.0, (h.1, tt))
read_request-printed (open_file tid fd path) h =
    read_fields 13 open_handler (num tid ∷ num fd ∷ word path ∷ []) (omega arith) refl
      (h.0, (h.1, (h.2, tt)))
read_request-printed (read tid fd count) h =
    read_fields 14 read_handler (num tid ∷ num fd ∷ num count ∷ []) (omega arith) refl
      (h.0, (h.1, (h.2, tt)))
read_request-printed (rename tid old_path newpath) h =
    read_fields 15 rename_handler (word old_path ∷ word newpath ∷ num tid ∷ []) (omega arith) refl
      (h.1, (h.2, (h.0, tt)))
read_request-printed (seek tid fd offset) h =
    read_fields 16 lseek_handler (num tid ∷ num fd ∷ num offset ∷ []) (omega arith) refl
      (h.0, (h.1, (h.2, tt)))
read_request-printed (seek_data tid fd offset) h =
    read_fields 17 seek_data_handler (num tid ∷ num fd ∷ num offset ∷ []) (omega arith) refl
      (h.0, (h.1, (h.2, tt)))
read_request-printed (seek_end tid fd) h =
    read_fields 18 seek_end_handler (num tid ∷ num fd ∷ []) (omega arith) refl (h.0, (h.1, tt))
read_request-printed (seek_hole tid fd offset) h =
    read_fields 19 seek_hole_handler (num tid ∷ num fd ∷ num offset ∷ []) (omega arith) refl
      (h.0, (h.1, (h.2, tt)))
read_request-printed (stat tid path) h =
    read_fields 20 stat_handler (num tid ∷ word path ∷ []) (omega arith) refl (h.0, (h.1, tt))
read_request-printed (unlink tid path) h =
    read_fields 21 unlink_handler (num tid ∷ word path ∷ []) (omega arith) refl (h.0, (h.1, tt))
read_request-printed (write tid fd count) h =
    read_fields 22 write_handler (num tid ∷ num fd ∷ num count ∷ []) (omega arith) refl
      (h.0, (h.1, (h.2, tt)))
read_request-printed (rmdir tid dir_path) h =
    read_fields 23 rmdir_handler (word dir_path ∷ num tid ∷ []) (omega arith) refl (h.1, (h.0, tt))
read_request-printed (copy_file_range tid fd_in fd_out offset_in offset_out count) h =
    read_fields 24 copy_file_range_handler
      (num tid ∷ num fd_in ∷ num fd_out ∷ num offset_in ∷ num offset_out ∷ num count ∷ [])
      (omega arith) refl (h.0, (h.1, (h.2, (h.3, (h.4, (h.5, tt))))))

-- What a client prints, where it has the size of a request, is a text that the server reads as the same
-- request, its numbers being in range and its paths and names without a space.
pub read-print_request :
    (r : Request) (text : List Char)
    → print_request r ≡ some text
    → Fits r
    → read_request text ≡ some (as_received r)
unfolding print_request
read-print_request r text h fits = ground (arith, read_request-printed r fits)
