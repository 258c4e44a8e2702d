-- ===== src/Tests/OnRequests.antt =====
-- Requests as texts, and a server that handles one.
use capio.Base.{◌≡◌, refl, some, List, nat_key, arith}
use Prim.Native.Char.{Char}
use capio.Clients.{register_client}
use capio.Requests.{
  mkdir, rename, print_request, printed, code, fields, read_request, select, format, arguments,
}
use capio.Requests.Text.{
  chars, digit, padded, printed_fields, printed_field, decimal, emit, text_size, scan, convert,
  scan_number, scan_string, scan_word, scan_digits, skip_spaces, from_chars, scan_code,
}
use capio.Requests.Received.{as_received, read-print_request}
use capio.Server.{Server}
use capio.Tests.OnServer.{server}

abbrev rename_text : List Char
rename_text = chars "0015 /a /b 7"

rename_printed : print_request (rename 7 "/a" "/b") ≡ some rename_text
unfolding print_request printed code fields padded digit printed_fields printed_field decimal emit
    text_size
rename_printed = refl

read-print_request_example : read_request rename_text ≡ some (as_received (rename 7 "/a" "/b"))
read-print_request_example =
    read-print_request (rename 7 "/a" "/b") rename_text rename_printed
      (omega arith, (refl, refl), (refl, refl))

-- A path with a space in it is cut off at the space.
mkdir_cut : read_request (chars "0012 7 /a b") ≡ some (mkdir 7 "/a")
unfolding read_request from_chars scan_code select format scan convert scan_number scan_string
    scan_word scan_digits skip_spaces arguments
mkdir_cut = refl

-- A thread that introduces itself.
abbrev joined : Server
joined = record server { clients = register_client 9 "default_app" server.clients }
