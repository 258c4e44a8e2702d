-- ===== src/Client/Copying/Served.antt =====
-- A copy between two files of CAPIO's, which the server makes in parts:
-- capio_copy_file_range_on_server of capio/posix/handlers/copy_file_range.hpp.
use capio.Base.{
  ℕ, ◌+◌, ◌-◌, ◌<◌, ◌≡◌, refl, ap, ◌∙◌, some, List, [], ◌∷◌, ◌++◌, map, true, false, nat_beq, ltb,
  arith,
}
use capio.Base.Int.{ℤ, pos, ◌+ℤ◌}
use capio.Caches
use capio.Requests.{copy_file_range}
use capio.Client.{Client, natural, ask, next_answer, send, flush_writes, on_write_cache}
use capio.Client.Reading.Sequential.{add_pos}
use capio.Client.Seek.Told.{no_flush}
use capio.Client.Copying.{CopyEnd, moved}
use capio.Client.Copying.Range.{server_round, server_rounds, capio_copy_file_range_on_server}

-- The bytes of some parts together.
unfoldable pub total : List ℕ → ℕ
total [] = 0
total (p ∷ ps) = p + total ps

abbrev pub AllPositive : List ℕ → Type 0
AllPositive [] = Unit {0}
AllPositive (p ∷ ps) = (0 < p) × AllPositive ps

-- The client when a part is asked for.
abbrev asked : ℕ → ℕ → ℕ → ℕ → ℕ → ℕ → List ℤ → Client → Client
asked tid fd_in fd_out i o count rest c = record c {
  sent = c.sent ++ (copy_file_range tid fd_in fd_out i o count ∷ []);
  answers = rest;
}

server_rounds_lem :
    (parts : List ℕ) (rest : List ℤ) (tid count offset_in offset_out copied : ℕ)
    (input output : CopyEnd) (c : Client)
    → AllPositive parts
    → copied + total parts < count
    → input.position ≡ pos offset_in
    → output.position ≡ pos offset_out
    → c.answers ≡ map pos parts ++ (pos 0 ∷ rest)
    → (c' : Client) × (input' : CopyEnd) × (output' : CopyEnd) × (server_rounds
          (map pos parts ++ (pos 0 ∷ rest))
          tid
          count
          input
          output
          copied
          c
        ≡ some ((copied + total parts, input', output'), c'))
      × (c'.answers ≡ rest)
      × (input'.position ≡ pos (offset_in + total parts))
      × (output'.position ≡ pos (offset_out + total parts))
unfolding server_rounds server_round total natural ask next_answer send
server_rounds_lem [] rest tid count i o copied input output c v h p q a =
    let f : ltb copied count ≡ true = ground (arith, h) in
    let z : copied + 0 ≡ copied = omega arith in
    let y : i ≡ i + 0 = omega arith in
    let x : o ≡ o + 0 = omega arith in
    (
      asked tid input.fd output.fd i o (count - copied) rest c,
      input,
      output,
      ground (arith, p, q, a, f, z),
      refl,
      p ∙ ap pos y,
      q ∙ ap pos x,
    )
server_rounds_lem (n ∷ parts) rest tid count i o copied input output c (v, vs) h p q a =
    let c1 : Client =
      asked tid input.fd output.fd i o (count - copied) (map pos parts ++ (pos 0 ∷ rest)) c in
    let p1 : input.position +ℤ pos n ≡ pos (i + n) = ap (λ x. x +ℤ pos n) p ∙ add_pos i n in
    let q1 : output.position +ℤ pos n ≡ pos (o + n) = ap (λ x. x +ℤ pos n) q ∙ add_pos o n in
    let (c', input', output', run, answers, p', q') =
      server_rounds_lem parts rest tid count (i + n) (o + n) (copied + n) (moved (pos n) input)
        (moved (pos n) output) c1 vs (omega (arith, h)) p1 q1 refl in
    let f : ltb copied count ≡ true = ground (arith, h) in
    let g : nat_beq n 0 ≡ false = ground (arith, v) in
    let z : copied + n + total parts ≡ copied + (n + total parts) = omega arith in
    let y : i + n + total parts ≡ i + (n + total parts) = omega arith in
    let x : o + n + total parts ≡ o + (n + total parts) = omega arith in
    (
      c',
      input',
      output',
      ground (arith, p, q, a, f, g, run, z),
      answers,
      p' ∙ ap pos y,
      q' ∙ ap pos x,
    )

-- A copy between two files of CAPIO's of a client that has read nothing ahead, where the server
-- copies parts of some bytes, together fewer than are asked for, and then says that the input
-- ends: the client reports the bytes of the parts together, and has moved both ends on by them.
pub capio_copy_file_range_on_server_lem :
    (parts : List ℕ) (rest : List ℤ) (tid count offset_in offset_out : ℕ) (input output : CopyEnd)
    (c : Client)
    → c.read_cache.cache_offset ≡ c.read_cache.actual_size
    → AllPositive parts
    → total parts < count
    → input.position ≡ pos offset_in
    → output.position ≡ pos offset_out
    → c.answers ≡ map pos parts ++ (pos 0 ∷ rest)
    → (c' : Client) × (input' : CopyEnd) × (output' : CopyEnd) × (capio_copy_file_range_on_server
          tid input output count c
        ≡ some ((total parts, input', output'), c'))
      × (c'.answers ≡ rest)
      × (input'.position ≡ pos (offset_in + total parts))
      × (output'.position ≡ pos (offset_out + total parts))
unfolding capio_copy_file_range_on_server flush_writes on_write_cache
capio_copy_file_range_on_server_lem parts rest tid count i o input output c clean v h p q a =
    let c1 : Client = on_write_cache tid Caches.flush c in
    let (c', input', output', run, answers, p', q') =
      server_rounds_lem parts rest tid count i o 0 input output c1 v (omega (arith, h)) p q a in
    let z : 0 + total parts ≡ total parts = omega arith in
    (c', input', output', ground (arith, no_flush tid c1 clean, a, run, z), answers, p', q')
