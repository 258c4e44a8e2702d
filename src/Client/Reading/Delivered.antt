-- ===== src/Client/Reading/Delivered.antt =====
-- What ReadCache::read of capio/posix/utils/cache.hpp delivers of a file, on all its ways: from the cache,
-- with a line that is read ahead, and past the cache; and where it asks the queue for too much.
use capio.Base.{
  ℕ, ◌+◌, ◌-◌, ◌≤◌, ◌<◌, ◌≡◌, refl, ap, sym, ◌∙◌, some, List, [], ◌∷◌, ◌++◌, length, take, drop,
  arith, ltb, leb, if◌then◌else◌, true, false, min, ◌⊎◌, dec_le, dec_lt,
}
use mathlib.Core.List.{append-nil}
use capio.Base.Int.{pos}
use capio.Caches.{split}
use capio.Caches.Received.{take_bytes, take_bytes-split}
use capio.Descriptors.{set_capio_fd_offset}
use capio.Requests.{read}
use capio.Client.{Client, on_tables, ask, next_answer, send}
use capio.Client.Reading.{
  remaining_bytes, read_line, read_more, read_exactly, read_queue, read_cached, ahead,
}
use capio.Client.Reading.Slices.{joined, length-slice, left_of_line, take-take}
use capio.Client.Reading.Sequential.{
  IsReading, served, set_capio_fd_offset_lem, read_cached-hit, read_ahead-run, add_pos, same_fd,
}

-- How many bytes a read asks the server for, when the cache has too few.
unfoldable pub asked_for : ℕ → ℕ → ℕ
asked_for line_size read_size = if ltb line_size read_size then read_size else line_size

module _ (file : List ℕ) (tid fd count offset : ℕ) (c : Client) (v : IsReading file fd offset c)
    (h : remaining_bytes c < count) where
  -- The rest fits into a line.
  read_cached-ahead :
      count - remaining_bytes c ≤ c.read_cache.max_line_size
      → (c' : Client) × (read_cached tid fd count false false
            (served file (offset + remaining_bytes c) c.read_cache.max_line_size c)
          ≡ some ((length (take count (drop offset file)), take count (drop offset file)), c'))
        × IsReading file fd (offset + length (take count (drop offset file))) c'
  unfolding read_cached read_more read_line on_tables served
  read_cached-ahead fits =
      let r : ℕ = remaining_bytes c in
      let m : ℕ = c.read_cache.max_line_size in
      let line : List ℕ = take m (drop (offset + r) file) in
      let n : length line ≡ min m (length file - (offset + r)) = length-slice m (offset + r) file in
      let before : List ℕ = take r (drop c.read_cache.cache_offset c.read_cache.cached) in
      let x : Client = record (served file (offset + r) m c) {
        read_cache = record (served file (offset + r) m c).read_cache {
          cache_offset = c.read_cache.cache_offset + r;
        };
      } in
      let (c1, run, tables, last, size, at, held) =
        read_ahead-run tid fd count (count - r) r offset (min (offset + r + m) (length file)) before
          line x (omega (arith, n, v.inside)) (omega arith) (omega (arith, n)) refl refl in
      let all : before ++ take (count - r) line ≡ take count (drop offset file) =
        ap (λ t. before ++ t) (take-take (count - r) m (drop (offset + r) file) fits)
        ∙ ap (λ t. t ++ take (count - r) (drop (offset + r) file)) v.held
        ∙ joined offset r (count - r) count file (omega arith) in
      let k : r + min (count - r) (length line) ≡ length (take count (drop offset file)) =
        omega (arith, n, length-slice count offset file, v.inside) in
      let whole : ℕ = length (take count (drop offset file)) in
      let (d', s, g) =
        set_capio_fd_offset_lem fd (pos offset) (pos (offset + whole)) c.tables v.offset_is in
      let same : set_capio_fd_offset fd (pos (offset + whole)) c1.tables ≡ some (tt, d') =
        ap (set_capio_fd_offset fd (pos (offset + whole))) tables ∙ s in
      let f : ltb m (count - r) ≡ false = ground (arith, fits) in
      (
        record c1 { tables = d' },
        ground (
          arith,
          same_fd tid fd (served file (offset + r) m c) v.last,
          v.offset_is,
          h,
          f,
          run,
          k,
          all,
          same,
          add_pos offset whole,
        ),
        record {
          last = last ∙ v.last;
          offset_is = g;
          order = omega (arith, size, at);
          inside = omega (arith, size, at, k, n, v.inside);
          held =
              left_of_line m (offset + r) (min (count - r) (length line)) c1.read_cache.cache_offset
                (offset + whole) (remaining_bytes (record c1 { tables = d' })) c1.read_cache.cached
                file held (omega (arith, size, at)) (sym at) (omega (arith, k));
        },
      )

  -- The cache is empty, and the request larger than a line.
  read_cached-past :
      remaining_bytes c ≡ 0
      → c.read_cache.max_line_size < count - remaining_bytes c
      → (c' : Client) × (read_cached tid fd count false false
            (served file (offset + remaining_bytes c) (count - remaining_bytes c) c)
          ≡ some ((length (take count (drop offset file)), take count (drop offset file)), c'))
        × IsReading file fd (offset + length (take count (drop offset file))) c'
  unfolding read_cached read_more read_line on_tables served read_exactly ask next_answer send
      read_queue ahead
  read_cached-past z large =
      let r : ℕ = remaining_bytes c in
      let m : ℕ = c.read_cache.max_line_size in
      let sent : List ℕ = take (count - r) (drop (offset + r) file) in
      let n : length sent ≡ min (count - r) (length file - (offset + r)) =
        length-slice (count - r) (offset + r) file in
      let before : List ℕ = take r (drop c.read_cache.cache_offset c.read_cache.cached) in
      let all : before ++ sent ≡ take count (drop offset file) =
        ap (λ t. t ++ sent) v.held ∙ joined offset r (count - r) count file (omega arith) in
      let whole : ℕ = length (take count (drop offset file)) in
      let w : whole ≡ length sent = omega (arith, n, z, length-slice count offset file, v.inside) in
      let e : min (offset + r + (count - r)) (length file) - offset ≡ whole =
        omega (arith, n, w, z, v.inside) in
      let o : offset ≤ min (offset + r + (count - r)) (length file) = omega (arith, v.inside) in
      let q : take_bytes m whole (split m sent) ≡ some (sent, []) =
        ap (λ j. take_bytes m j (split m sent)) w
        ∙ ap (take_bytes m (length sent)) (sym (append-nil (split m sent)))
        ∙ take_bytes-split m sent [] in
      let (d', s, g) =
        set_capio_fd_offset_lem fd (pos offset) (pos (offset + whole)) c.tables v.offset_is in
      let f : ltb m (count - r) ≡ true = ground (arith, large) in
      let u : c.read_cache.actual_size - (c.read_cache.cache_offset + r) ≡ 0 = omega arith in
      (
        record c {
          tables = d';
          answers = [];
          sent = c.sent ++ (read tid fd (count - r) ∷ []);
          read_cache = record (c.read_cache) {
            lines = [];
            cache_offset = c.read_cache.cache_offset + r;
          };
        },
        ground (
          arith,
          same_fd tid fd (served file (offset + r) (count - r) c) v.last,
          v.offset_is,
          h,
          f,
          e,
          o,
          q,
          all,
          s,
          add_pos offset whole,
        ),
        record {
          last = v.last;
          offset_is = g;
          order = omega (arith, v.order);
          inside = omega (arith, n, w, z, v.inside);
          held =
              ap (λ j. take j (drop (c.read_cache.cache_offset + r) c.read_cache.cached)) u
              ∙ ap (λ j. take j (drop (offset + whole) file)) (sym u);
        },
      )

-- What the server has sent when a read of `count` bytes goes on: nothing new where the cache has them all.
unfoldable pub served_for : List ℕ → ℕ → ℕ → Client → Client
served_for file offset count c =
    if leb count (remaining_bytes c)
    then c
    else served file (offset + remaining_bytes c)
        (asked_for c.read_cache.max_line_size (count - remaining_bytes c)) c

-- A read of a file through the read cache, from an offset at which what the cache holds is what
-- the file has next, with the server sending what it is asked for: if the cache is empty, or the
-- bytes that it lacks fit into a line, the caller gets the bytes of the file from the offset on,
-- as many as were asked for but none past the end, and is told how many; the descriptor then
-- stands behind them, and the cache again holds what comes next.
pub read_cached-delivers :
    (file : List ℕ) (tid fd count offset : ℕ) (c : Client)
    → IsReading file fd offset c
    → (remaining_bytes c ≡ 0) ⊎ (count ≤ remaining_bytes c + c.read_cache.max_line_size)
    → (c' : Client) × (read_cached tid fd count false false (served_for file offset count c)
        ≡ some ((length (take count (drop offset file)), take count (drop offset file)), c'))
      × IsReading file fd (offset + length (take count (drop offset file))) c'
unfolding served_for asked_for
read_cached-delivers file tid fd count offset c v fits = elim (dec_le count (remaining_bytes c)) [
  | yes l ↦
      let t : leb count (remaining_bytes c) ≡ true = ground (arith, l) in
      let n : length (take count (drop offset file)) ≡ count =
        omega (arith, length-slice count offset file, v.inside) in
      rw (t, n) (read_cached-hit file tid fd count offset c v l)
  | no g ↦
      let h : remaining_bytes c < count = omega arith in
      let t : leb count (remaining_bytes c) ≡ false = ground (arith, g) in
      elim (dec_lt c.read_cache.max_line_size (count - remaining_bytes c)) [
        | yes l ↦
            let u : ltb c.read_cache.max_line_size (count - remaining_bytes c) ≡ true =
              ground (arith, l) in
            let z : remaining_bytes c ≡ 0 = omega arith in
            rw (t, u) (read_cached-past file tid fd count offset c v h z l)
        | no l ↦
            let u : ltb c.read_cache.max_line_size (count - remaining_bytes c) ≡ false =
              ground (arith, l) in
            rw (t, u) (read_cached-ahead file tid fd count offset c v h (omega arith))
      ]
]
