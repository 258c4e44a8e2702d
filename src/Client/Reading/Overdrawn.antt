-- ===== src/Client/Reading/Overdrawn.antt =====
-- A read that goes past the cache when the cache still holds bytes: ReadCache::read of
-- capio/posix/utils/cache.hpp asks the queue for the bytes of the whole call.
use capio.Base.{
  ℕ, ◌+◌, ◌-◌, ◌*◌, ◌/◌, ◌%◌, ◌≤◌, ◌<◌, ◌≡◌, ap, ◌∙◌, none, some, List, [], ◌++◌, length, take,
  drop, arith, nat_beq, ltb, true, false, min,
}
use native.Mathlib.Nat.{
  div-eq_of_lt, mod-eq_of_lt, add-mul-div_right, mul-div_cancel, add-mul-mod_self_right,
  mul-mod_left,
}
use capio.Caches.{split, whole_elements}
use capio.Caches.Received.{take_bytes, take_rest, take_whole, take_whole-split}
use capio.Client.{Client, on_tables, ask, next_answer, send}
use capio.Client.Reading.{
  remaining_bytes, read_line, read_more, read_exactly, read_queue, read_cached, ahead,
}
use capio.Client.Reading.Slices.{length-slice}
use capio.Client.Reading.Sequential.{IsReading, served, same_fd}

zero_add : (n : ℕ) → 0 + n ≡ n
zero_add n = omega arith

-- More bytes than whole elements hold.
take_bytes-short :
    (size n more : ℕ) (bytes : List ℕ)
    → length bytes ≡ n * size
    → 0 < more
    → more < size
    → take_bytes size (more + n * size) (split size bytes) ≡ none
unfolding take_bytes take_rest split
take_bytes-short size n more bytes l p q =
    let z : 0 < size = omega (arith, p, q) in
    let a : length bytes / size ≡ n = ap (λ j. j / size) l ∙ mul-div_cancel n z in
    let b : length bytes % size ≡ 0 = ap (λ j. j % size) l ∙ mul-mod_left n size in
    let d : (more + n * size) / size ≡ n =
      add-mul-div_right more n z ∙ ap (λ j. j + n) (div-eq_of_lt q) ∙ zero_add n in
    let m : (more + n * size) % size ≡ more = add-mul-mod_self_right more n size ∙ mod-eq_of_lt q in
    let w : take_whole size n (whole_elements size n bytes ++ [])
        ≡ some (take (n * size) bytes, []) =
      take_whole-split size n bytes [] (omega (arith, l)) in
    let f : nat_beq more 0 ≡ false = ground (arith, p) in rw (a, b, d, m) (rw (w) (rw f))

-- A read in the middle of a file, with some bytes of less than a line left in the cache and the
-- rest a whole number of lines, more than one: the read does not come to an end, since it asks
-- the queue for more bytes than the server has sent.
pub read_cached-overdrawn :
    (file : List ℕ) (tid fd count offset lines : ℕ) (c : Client)
    → IsReading file fd offset c
    → 0 < remaining_bytes c
    → remaining_bytes c < c.read_cache.max_line_size
    → c.read_cache.max_line_size < count - remaining_bytes c
    → count - remaining_bytes c ≡ lines * c.read_cache.max_line_size
    → offset + count ≤ length file
    → read_cached tid fd count false false
        (served file (offset + remaining_bytes c) (count - remaining_bytes c) c)
      ≡ none
unfolding read_cached read_more read_line on_tables served read_exactly ask next_answer send
    read_queue ahead
read_cached-overdrawn file tid fd count offset lines c v p small large whole inside =
    let r : ℕ = remaining_bytes c in
    let m : ℕ = c.read_cache.max_line_size in
    let sent : List ℕ = take (count - r) (drop (offset + r) file) in
    let n : length sent ≡ lines * m =
      omega (arith, whole, inside, length-slice (count - r) (offset + r) file) in
    let e : min (offset + r + (count - r)) (length file) - offset ≡ r + lines * m =
      omega (arith, whole, inside) in
    let o : offset ≤ min (offset + r + (count - r)) (length file) = omega (arith, inside) in
    let q : take_bytes m (r + lines * m) (split m sent) ≡ none =
      take_bytes-short m lines r sent n p small in
    let f : ltb m (count - r) ≡ true = ground (arith, large) in
    let h : r < count = omega (arith, large) in
    ground (
      arith,
      same_fd tid fd (served file (offset + r) (count - r) c) v.last,
      v.offset_is,
      h,
      f,
      e,
      o,
      q,
    )
