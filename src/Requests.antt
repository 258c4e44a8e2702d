-- ===== src/Requests.antt =====
-- The requests of the clients: capio/common/requests.hpp, the texts that capio/posix/utils/requests.hpp
-- prints, and how the server reads them back: ClientManager::readNextRequest and the sscanf that each
-- handler of capio/server/include/handlers/ starts with. Numbers in a request are not negative.
pub mod Text
pub mod Scanned
pub mod Received
use capio.Base.{
  ℕ, zero, suc, ◌+◌, ◌^◌, ◌≡◌, Option, none, some, List, [], ◌∷◌, ltb, leb, nat_beq, if◌then◌else◌,
  Bool, true, false, not,
}
use Prim.Native.String.{String}
use Prim.Native.Char.{Char, len_utf8}
use capio.Requests.Text.{
  Field, num, word, Conversion, int, long, string, space, padded, printed_fields, text_size, scan,
  from_chars,
}

-- What a client asks for: the thread, and the arguments of its handler.
pub data Request : Type 0 where
  access : ℕ → String → Request
  clone : ℕ → ℕ → Request
  close : ℕ → ℕ → Request
  create create_exclusive : ℕ → ℕ → String → Request
  dup : ℕ → ℕ → ℕ → Request
  exit_group : ℕ → Request
  fstat : ℕ → ℕ → Request
  getdents : Bool → ℕ → ℕ → ℕ → Request
  handshake_named : ℕ → ℕ → String → Bool → Request
  handshake_anonymous : ℕ → ℕ → Request
  mkdir : ℕ → String → Request
  open_file : ℕ → ℕ → String → Request
  read : ℕ → ℕ → ℕ → Request
  rename : ℕ → String → String → Request
  seek seek_data : ℕ → ℕ → ℕ → Request
  seek_end : ℕ → ℕ → Request
  seek_hole : ℕ → ℕ → ℕ → Request
  stat unlink : ℕ → String → Request
  write : ℕ → ℕ → ℕ → Request
  rmdir : ℕ → String → Request
  copy_file_range : ℕ → ℕ → ℕ → ℕ → ℕ → ℕ → Request

-- The codes, CAPIO_REQUEST_ACCESS to CAPIO_REQUEST_COPY_FILE_RANGE.
unfoldable pub code : Request → ℕ
code (access _ _) = 0
code (clone _ _) = 1
code (close _ _) = 2
code (create _ _ _) = 3
code (create_exclusive _ _ _) = 4
code (dup _ _ _) = 5
code (exit_group _) = 6
code (fstat _ _) = 7
code (getdents false _ _ _) = 8
code (getdents true _ _ _) = 9
code (handshake_named _ _ _ _) = 10
code (handshake_anonymous _ _) = 11
code (mkdir _ _) = 12
code (open_file _ _ _) = 13
code (read _ _ _) = 14
code (rename _ _ _) = 15
code (seek _ _ _) = 16
code (seek_data _ _ _) = 17
code (seek_end _ _) = 18
code (seek_hole _ _ _) = 19
code (stat _ _) = 20
code (unlink _ _) = 21
code (write _ _ _) = 22
code (rmdir _ _) = 23
code (copy_file_range _ _ _ _ _ _) = 24

-- What is printed behind the code, field by field; two fields are kept apart by a space. The format of
-- clone_request has two spaces there, which is an empty field.
unfoldable pub fields : Request → List Field
fields (access tid path) = num tid ∷ word path ∷ []
fields (clone parent_tid child_tid) = word "" ∷ num parent_tid ∷ num child_tid ∷ []
fields (close tid fd) = num tid ∷ num fd ∷ []
fields (create tid fd path) = num tid ∷ num fd ∷ word path ∷ []
fields (create_exclusive tid fd path) = num tid ∷ num fd ∷ word path ∷ []
fields (dup tid old_fd new_fd) = num tid ∷ num old_fd ∷ num new_fd ∷ []
fields (exit_group tid) = num tid ∷ []
fields (fstat tid fd) = num tid ∷ num fd ∷ []
fields (getdents is64bit tid fd count) = num tid ∷ num fd ∷ num count ∷ []
fields (handshake_named tid pid app_name wait) =
    num tid ∷ num pid ∷ word app_name ∷ num (if wait then 1 else 0) ∷ []
fields (handshake_anonymous tid pid) = num tid ∷ num pid ∷ []
fields (mkdir tid path) = num tid ∷ word path ∷ []
fields (open_file tid fd path) = num tid ∷ num fd ∷ word path ∷ []
fields (read tid fd count) = num tid ∷ num fd ∷ num count ∷ []
fields (rename tid old_path newpath) = word old_path ∷ word newpath ∷ num tid ∷ []
fields (seek tid fd offset) = num tid ∷ num fd ∷ num offset ∷ []
fields (seek_data tid fd offset) = num tid ∷ num fd ∷ num offset ∷ []
fields (seek_end tid fd) = num tid ∷ num fd ∷ []
fields (seek_hole tid fd offset) = num tid ∷ num fd ∷ num offset ∷ []
fields (stat tid path) = num tid ∷ word path ∷ []
fields (unlink tid path) = num tid ∷ word path ∷ []
fields (write tid fd count) = num tid ∷ num fd ∷ num count ∷ []
fields (rmdir tid dir_path) = word dir_path ∷ num tid ∷ []
fields (copy_file_range tid fd_in fd_out offset_in offset_out count) =
    num tid ∷ num fd_in ∷ num fd_out ∷ num offset_in ∷ num offset_out ∷ num count ∷ []

-- CAPIO_REQ_MAX_SIZE
abbrev pub req_max_size : ℕ
req_max_size = 256

unfoldable pub printed : Request → List Char
printed r = padded (code r) (printed_fields (fields r))

-- The sprintf of each request, with the byte that ends it: it overruns the buffer where the text is
-- longer.
unfoldable pub print_request : Request → Option (List Char)
print_request r = if ltb (text_size (printed r)) req_max_size then some (printed r) else none

-- The table of build_request_handlers_table, by code. Both codes of getdents have one handler.
pub data Handler : Type 0 where
  access_handler clone_handler close_handler create_handler create_exclusive_handler : Handler
  dup_handler exit_group_handler fstat_handler getdents_handler handshake_named_handler : Handler
  handshake_anonymous_handler mkdir_handler open_handler read_handler rename_handler : Handler
  lseek_handler seek_data_handler seek_end_handler seek_hole_handler stat_handler : Handler
  unlink_handler write_handler rmdir_handler copy_file_range_handler : Handler

abbrev pub request_handlers : List Handler
request_handlers =
    access_handler ∷ clone_handler ∷ close_handler ∷ create_handler ∷ create_exclusive_handler
    ∷ dup_handler ∷ exit_group_handler ∷ fstat_handler ∷ getdents_handler ∷ getdents_handler
    ∷ handshake_named_handler ∷ handshake_anonymous_handler ∷ mkdir_handler ∷ open_handler
    ∷ read_handler ∷ rename_handler ∷ lseek_handler ∷ seek_data_handler ∷ seek_end_handler
    ∷ seek_hole_handler ∷ stat_handler ∷ unlink_handler ∷ write_handler ∷ rmdir_handler
    ∷ copy_file_range_handler ∷ []

-- The format of the sscanf of each handler.
unfoldable pub format : Handler → List Conversion
format access_handler = long ∷ string ∷ []
format clone_handler = int ∷ int ∷ []
format close_handler = int ∷ int ∷ []
format create_handler = int ∷ int ∷ string ∷ []
format create_exclusive_handler = int ∷ int ∷ string ∷ []
format dup_handler = int ∷ int ∷ int ∷ []
format exit_group_handler = int ∷ []
format fstat_handler = int ∷ int ∷ []
format getdents_handler = int ∷ int ∷ long ∷ []
format handshake_named_handler = int ∷ int ∷ string ∷ int ∷ []
format handshake_anonymous_handler = int ∷ int ∷ []
format mkdir_handler = int ∷ string ∷ []
format open_handler = int ∷ int ∷ string ∷ []
format read_handler = int ∷ int ∷ long ∷ []
format rename_handler = string ∷ string ∷ int ∷ []
format lseek_handler = int ∷ int ∷ long ∷ []
format seek_data_handler = int ∷ int ∷ long ∷ []
format seek_end_handler = int ∷ int ∷ []
format seek_hole_handler = int ∷ int ∷ long ∷ []
format stat_handler = int ∷ string ∷ []
format unlink_handler = int ∷ string ∷ []
format write_handler = int ∷ int ∷ long ∷ []
format rmdir_handler = string ∷ int ∷ []
format copy_file_range_handler = int ∷ int ∷ int ∷ long ∷ long ∷ long ∷ []

-- The arguments of the handler, from what sscanf has read. The number of getdents is not known to its
-- handler.
unfoldable pub arguments : Handler → List Field → Option Request
arguments access_handler (num tid ∷ word path ∷ []) = some (access tid path)
arguments clone_handler (num parent_tid ∷ num child_tid ∷ []) = some (clone parent_tid child_tid)
arguments close_handler (num tid ∷ num fd ∷ []) = some (close tid fd)
arguments create_handler (num tid ∷ num fd ∷ word path ∷ []) = some (create tid fd path)
arguments create_exclusive_handler (num tid ∷ num fd ∷ word path ∷ []) =
    some (create_exclusive tid fd path)
arguments dup_handler (num tid ∷ num old_fd ∷ num new_fd ∷ []) = some (dup tid old_fd new_fd)
arguments exit_group_handler (num tid ∷ []) = some (exit_group tid)
arguments fstat_handler (num tid ∷ num fd ∷ []) = some (fstat tid fd)
arguments getdents_handler (num tid ∷ num fd ∷ num count ∷ []) = some (getdents true tid fd count)
arguments handshake_named_handler (num tid ∷ num pid ∷ word app_name ∷ num wait ∷ []) =
    some (handshake_named tid pid app_name (not (nat_beq wait 0)))
arguments handshake_anonymous_handler (num tid ∷ num pid ∷ []) = some (handshake_anonymous tid pid)
arguments mkdir_handler (num tid ∷ word pathname ∷ []) = some (mkdir tid pathname)
arguments open_handler (num tid ∷ num fd ∷ word path ∷ []) = some (open_file tid fd path)
arguments read_handler (num tid ∷ num fd ∷ num count ∷ []) = some (read tid fd count)
arguments rename_handler (word oldpath ∷ word newpath ∷ num tid ∷ []) =
    some (rename tid oldpath newpath)
arguments lseek_handler (num tid ∷ num fd ∷ num offset ∷ []) = some (seek tid fd offset)
arguments seek_data_handler (num tid ∷ num fd ∷ num offset ∷ []) = some (seek_data tid fd offset)
arguments seek_end_handler (num tid ∷ num fd ∷ []) = some (seek_end tid fd)
arguments seek_hole_handler (num tid ∷ num fd ∷ num offset ∷ []) = some (seek_hole tid fd offset)
arguments stat_handler (num tid ∷ word path ∷ []) = some (stat tid path)
arguments unlink_handler (num tid ∷ word path ∷ []) = some (unlink tid path)
arguments write_handler (num tid ∷ num fd ∷ num count ∷ []) = some (write tid fd count)
arguments rmdir_handler (word dir_to_remove ∷ num tid ∷ []) = some (rmdir tid dir_to_remove)
arguments copy_file_range_handler
      (num tid ∷ num fd_in ∷ num fd_out ∷ num offset_in ∷ num offset_out ∷ num count ∷ []) =
    some (copy_file_range tid fd_in fd_out offset_in offset_out count)
arguments _ _ = none

abbrev pub handler_at : List Handler → ℕ → Option Handler
handler_at [] n = none
handler_at (h ∷ hs) zero = some h
handler_at (h ∷ hs) (suc n) = handler_at hs n

-- The tests of the loop of capio_server, and then the table, which has no entry for CAPIO_NR_REQUESTS.
unfoldable pub select : ℕ → Option Handler
select code = if ltb 25 code then none else handler_at request_handlers code

-- A request as the server understands it: the code and the rest of the text by readNextRequest, and
-- then the sscanf of the handler. A code that cannot be read ends the server; what sscanf does not read
-- is not set, which is no result.
unfoldable pub read_request : List Char → Option Request
read_request req = elim (from_chars 4 req) [
  | none ↦ none
  | some (code, rest) ↦ elim (select code) [
    | none ↦ none
    | some handler ↦ elim (scan (format handler) rest) [
      | none ↦ none
      | some fs ↦ arguments handler fs
    ]
  ]
]
