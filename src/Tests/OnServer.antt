-- ===== src/Tests/OnServer.antt =====
-- A server with one file of four bytes of data, open at offset 1 in thread 1.
use capio.Base.{
  ◌+◌, ◌≡◌, refl, [], ◌∷◌, none, some, arith, true, false, leb, max, string_key, nat_key, ◌⊎◌,
}
use capio.Base.Int.{pos}
use capio.Base.Map.{lookup}
use capio.Buffer.{System, heap}
use capio.Sectors.{get_sector_end, get_file_size}
use capio.File.{CapioFile, new_file}
use capio.File.Data.{IsSound}
use capio.Storage.{fd_key, pair_beq, OpenedFd}
use capio.Clients.{DataBuffers}
use capio.Server.{Env, Server, Location, for_commit, suspend}
use capio.Server.Read.{handle_local_read, handle_pending_read}
use capio.Server.Read.Serve.{Reader, Served}
use capio.Server.Read.Local.{
  Answered, Streamed, pending, handle_local_read_complete, handle_local_read_streaming,
  handle_pending_read_lem,
}
use capio.Server.Handlers.Commit.{close_times, close_times_lem}
use capio.File.Write.{Written}
use capio.Server.Publish.{write_handler}
use capio.Server.Publish.Writes.{write_handler_lem}
use capio.Storage.Fds.{HasOffset}

abbrev sys : System
sys = record {
  readings = record { mem_available = none; cgroup = none; inactive = 0 };
  fresh = λ x. 0;
  disk = λ x. 0;
  open_ok = true;
  ftruncate_ok = true;
  mmap_ok = true;
  close_ok = true;
}

abbrev pub env : Env
env = record {
  is_producer_of = λ path app. false;
  is_firable = λ path. true;
  commits_on_close = λ path. true;
  commits_on_termination = λ path. false;
  commits_on_n_files = λ path. false;
  is_excluded = λ path. false;
  file_config =
      λ path. record { directory_file_count = 0; permanent = false; commit_close_count = 2 };
  node_name = "node";
  capio_dir = "/";
  file_initial_size = 8;
  system = sys;
  byte_length = λ path. 2;
  parent_dir = λ path. "/";
  file_name = λ path. path;
  nodes = "node" ∷ [];
  location_lines = λ node. [];
  location_position = λ node. pos 0;
  dirent = λ path name off is_dir. off ∷ [];
  dirent_size = 1;
  copy_dirent = λ bytes off. off ∷ [];
}

abbrev file : CapioFile
file = record {
  buffer = record { storage = heap; block = some (λ x. x + 7); size = 8; fd = false; map_len = 0 };
  requested_size = 8;
  n_close = 0;
  n_opens = pos 1;
  n_files = 0;
  n_files_expected = 0;
  n_close_expected = 2;
  home_node = true;
  committed = false;
  directory = false;
  permanent = false;
  first_write = false;
  sectors = (0, 4) ∷ [];
  real_file_size = 0;
  threads_fd = (1, 3) ∷ [];
}

file-IsSound : IsSound file
file-IsSound = record {
  sorted = (omega arith, omega arith, tt);
  holds = record {
    within = unfold get_file_size in (omega arith);
    nothing = λ e. ground arith;
    mapping = λ e. ground arith;
  };
}

abbrev entry : OpenedFd
entry = record { path = "/a"; pointer = some 0; offset = some 0 }

abbrev buffers : DataBuffers
buffers = record { client_to_server = []; server_to_client = [] }

abbrev pub server : Server
server = record {
  storage = record {
    storage = ("/a", 0) ∷ [];
    objects = (0, file) ∷ [];
    opened = ((1, 3), entry) ∷ [];
    offsets = (0, pos 1) ∷ [];
    next_object = 1;
    next_offset = 1;
  };
  clients = record {
    data_buffers = (1, buffers) ∷ [];
    app_names = [];
    files_created_by_producer = [];
    files_created_by_app_name = [];
    responses = (1, []) ∷ [];
    thread_allowed_to_continue = [];
  };
  locations = [];
  published = [];
  marks = [];
  waiting = [];
}

is_open : lookup (1, 3) server.storage.opened ≡ some entry
unfolding lookup fd_key pair_beq
is_open = refl

at_one : lookup 0 server.storage.offsets ≡ some (pos 1)
unfolding lookup
at_one = refl

is_named : lookup "/a" server.storage.storage ≡ some 0
unfolding lookup
is_named = refl

is_stored : lookup 0 server.storage.objects ≡ some file
unfolding lookup
is_stored = refl

has_channel : lookup 1 server.clients.responses ≡ some []
unfolding lookup
has_channel = refl

has_buffers : lookup 1 server.clients.data_buffers ≡ some buffers
unfolding lookup
has_buffers = refl

abbrev reader : Reader 1 3 1 "/a" file server
reader = record {
  id = 0;
  cell = 0;
  block = λ x. x + 7;
  channel = [];
  buffers = buffers;
  at_offset = record { entry = entry; is_open = is_open; at_cell = refl; holds = at_one };
  at_path = refl;
  named = is_named;
  stored = is_stored;
  has_block = refl;
  has_channel = has_channel;
  has_buffers = has_buffers;
}

handle_local_read_complete_example :
    Answered env 1 3 1 2 "/a" file server reader
      (get_sector_end 1 file.sectors)
      (handle_local_read env 1 3 2 true server)
handle_local_read_complete_example =
    handle_local_read_complete env 1 3 1 2 "/a" file server reader true file-IsSound refl

handle_local_read_streaming_example :
    ((env.is_firable "/a" ≡ false)
      × (handle_local_read env 1 3 2 false server ≡ suspend (for_commit 0 1 3 (pos 1) 2) server))
    ⊎ ((env.is_firable "/a" ≡ true)
        × Streamed env 1 3 1 2 "/a" file server reader
            (get_sector_end 1 file.sectors)
            (handle_local_read env 1 3 2 false server))
handle_local_read_streaming_example =
    handle_local_read_streaming env 1 3 1 2 "/a" file server reader false file-IsSound refl

handle_pending_read_lem_example :
    (s' : Server) × (handle_pending_read env 1 3 (pos 1) 2 server ≡ some (tt, s'))
    × Served env 1 3 1 "/a" file server reader
        (pending env 1 3 1 2 "/a" file server reader (get_sector_end 1 file.sectors))
        s'
handle_pending_read_lem_example =
    handle_pending_read_lem env 1 3 1 2 "/a" file server reader file-IsSound

close_times_lem_example :
    (g : CapioFile) × (close_times env "/a" 3 (new_file false 0 false 8 2) ≡ some g)
    × (g.committed ≡ leb (max 2 1) 3)
close_times_lem_example = close_times_lem env "/a" refl false 0 8 2 3

-- The same server, once the client has sent three bytes.
abbrev sent_buffers : DataBuffers
sent_buffers = record { client_to_server = 5 ∷ 6 ∷ 7 ∷ []; server_to_client = [] }

abbrev sending : Server
sending = record server {
  clients = record (server.clients) { data_buffers = (1, sent_buffers) ∷ [] };
}

has_sent : lookup 1 sending.clients.data_buffers ≡ some sent_buffers
unfolding lookup
has_sent = refl

abbrev writer : Reader 1 3 1 "/a" file sending
writer = record {
  id = 0;
  cell = 0;
  block = λ x. x + 7;
  channel = [];
  buffers = sent_buffers;
  at_offset = record { entry = entry; is_open = is_open; at_cell = refl; holds = at_one };
  at_path = refl;
  named = is_named;
  stored = is_stored;
  has_block = refl;
  has_channel = has_channel;
  has_buffers = has_sent;
}

write_handler_lem_example :
    (s' : Server) × (f' : CapioFile) × (write_handler env 1 3 2 sending ≡ some (tt, s'))
    × (lookup 0 s'.storage.objects ≡ some f')
    × Written 1 (5 ∷ 6 ∷ []) file f'
    × HasOffset (1, 3) 0 (pos (1 + 2)) s'.storage
write_handler_lem_example =
    write_handler_lem env 1 3 1 2 "/a" file sending writer (omega arith) file-IsSound
      (record { not_permanent = refl; on_heap = refl }) refl

abbrev env_with_lines : Env
env_with_lines = record env { location_lines = λ node. (true, "/c") ∷ (false, "/b") ∷ [] }

abbrev location : Location
location = record { node = "node"; own_name = false; offset = pos 0 }

abbrev locating : Server
locating = record server { locations = ("/a", location) ∷ [] }
