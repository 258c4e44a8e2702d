-- ===== src/Client/Reading/Sequential.antt =====
-- Reads of a file from one offset on, through the read cache: what the cache holds is the file's, and a
-- server that answers as capio/server/include/handlers/read.hpp does, with the end of what it sends.
use capio.Base.{
  ℕ, ◌+◌, ◌-◌, ◌≤◌, ◌≡◌, refl, ap, sym, ◌∙◌, some, List, [], ◌∷◌, ◌++◌, length, take, drop, arith,
  nat_beq_iff, true, false, min, inl, inr, nat_key, Option-cases, dec_lt,
}
use capio.Base.Int.{ℤ, pos, ◌+ℤ◌}
use capio.Base.Map.{lookup, insert, lookup-insert_self}
use capio.Caches.{split}
use capio.Caches.Line.{take_all}
use capio.Caches.Received.{take-nil}
use capio.Requests.{read}
use capio.Descriptors.{Descriptors, get_capio_fd_offset, set_capio_fd_offset}
use capio.Client.{Client, ReadCache, on_tables, ask, next_answer, send}
use capio.Client.Reading.{
  change_last_fd, remaining_bytes, read_line, read_ahead, fetch_line, read_cached, is_fd, ahead,
}
use capio.Client.Reading.Slices.{shorter, behind, split-one}

-- The descriptor is at an offset of the file, and the cache holds what comes next.
pub record IsReading (file : List ℕ) (fd offset : ℕ) (c : Client) : Type 0 where
  pub last : c.read_cache.last_fd ≡ some fd
  pub offset_is : get_capio_fd_offset fd c.tables ≡ some (pos offset, c.tables)
  pub order : c.read_cache.cache_offset ≤ c.read_cache.actual_size
  pub inside : offset + remaining_bytes c ≤ length file
  pub held :
      take (remaining_bytes c) (drop c.read_cache.cache_offset c.read_cache.cached)
      ≡ take (remaining_bytes c) (drop offset file)

-- What the server has sent for one request of `n` bytes at an offset.
unfoldable pub served : List ℕ → ℕ → ℕ → Client → Client
served file at n c = record c {
  answers = pos (min (at + n) (length file)) ∷ [];
  read_cache = record (c.read_cache) {
    lines = split c.read_cache.max_line_size (take n (drop at file));
  };
}

pub set_capio_fd_offset_lem :
    (fd : ℕ) (old new : ℤ) (d : Descriptors)
    → get_capio_fd_offset fd d ≡ some (old, d)
    → (d' : Descriptors) × (set_capio_fd_offset fd new d ≡ some (tt, d'))
      × (get_capio_fd_offset fd d' ≡ some (new, d'))
unfolding get_capio_fd_offset set_capio_fd_offset
set_capio_fd_offset_lem fd old new d h = elim (Option-cases (lookup fd d.files)) [
  | inl n ↦ absurd (ground (arith, n, h))
  | inr (f, e) ↦ (
    record d { offsets = insert f.offset new d.offsets },
    ground (arith, e),
    ground (arith, e, lookup-insert_self f.offset new d.offsets),
  )
]

-- The descriptor at a new offset, with the cache at it.
abbrev pub moved_to : Descriptors → ReadCache → Client → Client
moved_to d r c = record c { tables = d; read_cache = r }

pub add_pos : (a b : ℕ) → pos a +ℤ pos b ≡ pos (a + b)
unfolding ◌+ℤ◌
add_pos a b = ground arith

pub same_fd :
    (tid fd : ℕ) (c : Client)
    → c.read_cache.last_fd ≡ some fd
    → change_last_fd tid fd c ≡ some (tt, c)
unfolding change_last_fd
same_fd tid fd c h = let e : is_fd fd (some fd) ≡ true = (nat_beq_iff fd fd).1 refl in rw (h, e)

-- The bytes are in the cache.
pub read_cached-hit :
    (file : List ℕ) (tid fd count offset : ℕ) (c : Client)
    → IsReading file fd offset c
    → count ≤ remaining_bytes c
    → (c' : Client) × (read_cached tid fd count false false c
        ≡ some ((count, take count (drop offset file)), c'))
      × IsReading file fd (offset + count) c'
unfolding read_cached on_tables read_line
read_cached-hit file tid fd count offset c v h =
    let (d', s, g) =
      set_capio_fd_offset_lem fd (pos offset) (pos (offset + count)) c.tables v.offset_is in
    let r : ReadCache = record (c.read_cache) {
      cache_offset = c.read_cache.cache_offset + count;
    } in
    let bytes : take count (drop c.read_cache.cache_offset c.read_cache.cached)
        ≡ take count (drop offset file) =
      shorter count (remaining_bytes c) (drop c.read_cache.cache_offset c.read_cache.cached)
        (drop offset file) h v.held in
    (
      moved_to d' r c,
      ground (arith, same_fd tid fd c v.last, v.offset_is, h, s, add_pos offset count, bytes),
      record {
        last = v.last;
        offset_is = g;
        order = omega (arith, v.order, h);
        inside = omega (arith, v.order, h, v.inside);
        held =
            behind count (remaining_bytes c) (remaining_bytes (moved_to d' r c))
              c.read_cache.cache_offset offset c.read_cache.cached file (omega (arith, v.order, h))
              v.held;
      },
    )

empty_of_length : (xs : List ℕ) → length xs ≡ 0 → xs ≡ []
empty_of_length [] h = refl
empty_of_length (x ∷ xs) h = absurd (omega arith)

-- The client when a line is asked for, and `k` bytes of it are read.
abbrev asked : ℕ → ℕ → List ℕ → List (List ℕ) → ℕ → ℕ → Client → Client
asked tid fd cached lines size k x = record x {
  answers = [];
  sent = x.sent ++ (read tid fd x.read_cache.max_line_size ∷ []);
  read_cache = record (x.read_cache) {
    cached = cached;
    lines = lines;
    actual_size = size;
    cache_offset = k;
  };
}

-- A whole line that is fetched, of which `read_size` bytes are asked for.
module _ (tid fd count read_size remaining offset end : ℕ) (before line : List ℕ) (x : Client)
    (size_is : offset + remaining + length line ≡ end) (count_is : count ≡ remaining + read_size)
    (fits : length line ≤ x.read_cache.max_line_size) (answer_is : x.answers ≡ pos end ∷ [])
    (lines_are : x.read_cache.lines ≡ split x.read_cache.max_line_size line) where
  pub read_ahead-run :
      (x' : Client) × (read_ahead tid fd count read_size remaining (pos offset) before x
        ≡ some ((remaining + min read_size (length line), before ++ take read_size line), x'))
      × (x'.tables ≡ x.tables)
      × (x'.read_cache.last_fd ≡ x.read_cache.last_fd)
      × (x'.read_cache.actual_size ≡ length line)
      × (x'.read_cache.cache_offset ≡ min read_size (length line))
      × (take (length line) x'.read_cache.cached ≡ line)
  unfolding read_ahead ask next_answer send ahead fetch_line read_line
  read_ahead-run =
      let s : offset + remaining ≤ end = omega arith in
      let e : end - (offset + remaining) ≡ length line = omega arith in
      let t : take (length line) line ≡ line = take_all line (length line) (omega arith) in
      elim (dec_lt 0 (length line)) [
        | yes p ↦
            let one : split x.read_cache.max_line_size line ≡ line ∷ [] =
              split-one x.read_cache.max_line_size line fits p in
            elim (dec_lt read_size (length line)) [
              | yes l ↦
                  let m : min read_size (length line) ≡ read_size = omega arith in
                  (
                    asked tid fd line [] (length line) read_size x,
                    ground (
                      arith,
                      answer_is,
                      lines_are,
                      one,
                      add_pos offset remaining,
                      e,
                      count_is,
                      m,
                    ),
                    refl,
                    refl,
                    refl,
                    sym m,
                    t,
                  )
              | no g ↦
                  let m : min read_size (length line) ≡ length line = omega arith in
                  let u : take read_size line ≡ line = take_all line read_size (omega arith) in
                  (
                    asked tid fd line [] (length line) (length line) x,
                    ground (arith, answer_is, lines_are, one, add_pos offset remaining, e, t, u, m),
                    refl,
                    refl,
                    refl,
                    sym m,
                    t,
                  )
            ]
        | no z ↦
            let n : line ≡ [] = empty_of_length line (omega arith) in
            let l : length line ≡ 0 = omega arith in
            let m : min read_size (length line) ≡ 0 = omega arith in
            let u : take read_size line ≡ [] = ap (take read_size) n ∙ take-nil read_size in
            (
              asked tid fd x.read_cache.cached x.read_cache.lines 0 0 x,
              ground (arith, answer_is, add_pos offset remaining, e, l, u, m),
              refl,
              refl,
              sym l,
              sym m,
              ap (λ j. take j x.read_cache.cached) l ∙ sym n,
            )
      ]
