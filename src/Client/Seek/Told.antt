-- ===== src/Client/Seek/Told.antt =====
-- What a seek leaves: capio_lseek of capio/posix/handlers/lseek.hpp, where the read cache has nothing that
-- was read ahead.
use capio.Base.{ℕ, ◌≡◌, refl, ap, ◌∙◌, some, List, [], ◌∷◌, ◌++◌, arith, nat_beq, nat_beq_iff, true}
use mathlib.Core.List.{append_assoc, append-nil}
use capio.Base.Int.{ℤ, pos, negsuc, ◌+ℤ◌}
use capio.Caches
use capio.Caches.{WriteCache}
use capio.Descriptors.{exists_capio_fd, get_capio_fd_offset}
use capio.Requests.{seek, seek_end}
use capio.Client.{
  Client, on_tables, ask, next_answer, send, fail, flush_writes, on_write_cache, as_requests,
  einval,
}
use capio.Client.Reading.{flush_reads}
use capio.Client.Reading.Sequential.{set_capio_fd_offset_lem}
use capio.Client.Data.{capio_set_fd_offset}
use capio.Client.Seek.{
  Whence, seek_set, seek_cur, seek_to_end, seek_to, seek_by, set_and_return, capio_lseek,
}

-- Where the call asks to go, from an offset, with the whences that POSIX has for the offset itself.
pub data Target : Whence → ℤ → ℕ → ℤ → Type 0 where
  from_start : (offset : ℤ) (old : ℕ) → Target seek_set offset old offset
  from_here : (offset : ℤ) (old : ℕ) → Target seek_cur offset old (pos old +ℤ offset)

pub no_flush :
    (tid : ℕ) (c : Client)
    → c.read_cache.cache_offset ≡ c.read_cache.actual_size
    → flush_reads tid c ≡ some (tt, c)
unfolding flush_reads
no_flush tid c h =
    let e : nat_beq c.read_cache.cache_offset c.read_cache.actual_size ≡ true =
      (nat_beq_iff c.read_cache.cache_offset c.read_cache.actual_size).1 h in
    rw (e)

flush-size : (w : WriteCache) → (Caches.flush w).actual_size ≡ 0
unfolding Caches.flush
flush-size w = ground arith

-- Nothing is left to flush when the cache has been flushed.
flush-flushed :
    (w : WriteCache)
    → Caches.flush (record (Caches.flush w) { requests = [] })
      ≡ record (Caches.flush w) { requests = [] }
unfolding Caches.flush
flush-flushed w = ground arith

seek_to-Target :
    (tid fd old : ℕ) (offset target : ℤ) (whence : Whence)
    → Target whence offset old target
    → seek_by tid fd offset whence (pos old) ≡ seek_to tid fd target
unfolding seek_by
seek_to-Target tid fd old offset target whence (from_start _ _) = refl
seek_to-Target tid fd old offset target whence (from_here _ _) = refl

module _ (tid fd old : ℕ) (offset : ℤ) (whence : Whence) (c : Client)
    (clean : c.read_cache.cache_offset ≡ c.read_cache.actual_size)
    (known : exists_capio_fd fd c.tables ≡ true)
    (at : get_capio_fd_offset fd c.tables ≡ some (pos old, c.tables)) where
  capio_lseek-seek_by :
      capio_lseek tid fd offset whence c
      ≡ seek_by tid fd offset whence (pos old) (on_write_cache tid Caches.flush c)
  unfolding capio_lseek flush_writes on_tables on_write_cache
  capio_lseek-seek_by = ground (arith, no_flush tid c clean, known, at)

  -- A seek to an offset, from the start or from where the descriptor is, of a client that has
  -- read nothing ahead and whose server answers: the new offset is returned, it is the offset of
  -- the descriptor, the server is told it after what was in the write cache, and the write cache
  -- is empty.
  pub capio_lseek-moves :
      (new : ℕ) (a : ℤ) (rest : List ℤ)
      → Target whence offset old (pos new)
      → c.answers ≡ a ∷ rest
      → (c' : Client) × (capio_lseek tid fd offset whence c ≡ some (pos new, c'))
        × (get_capio_fd_offset fd c'.tables ≡ some (pos new, c'.tables))
        × (c'.sent
            ≡ c.sent
              ++ (as_requests tid (Caches.flush c.write_cache).requests ++ (seek tid fd new ∷ [])))
        × (c'.write_cache.actual_size ≡ 0)
  unfolding seek_to capio_set_fd_offset ask next_answer send on_tables flush_writes on_write_cache
  capio_lseek-moves new a rest t answers =
      let (d', s, g) = set_capio_fd_offset_lem fd (pos old) (pos new) c.tables at in
      let c1 : Client = on_write_cache tid Caches.flush c in
      let c2 : Client = on_write_cache tid Caches.flush c1 in
      let w : Caches.flush c1.write_cache ≡ c1.write_cache = flush-flushed c.write_cache in
      let same : c2.sent ≡ c1.sent =
        ap (λ v. c1.sent ++ as_requests tid v.requests) w ∙ append-nil c1.sent in
      (
        record c2 { tables = d'; sent = c2.sent ++ (seek tid fd new ∷ []); answers = rest },
        capio_lseek-seek_by
            ∙ ap (λ op. op c1) (seek_to-Target tid fd old offset (pos new) whence t)
            ∙ ground (arith, no_flush tid c1 clean, no_flush tid c2 clean, s, answers),
        g,
        ap (λ r. r ++ (seek tid fd new ∷ [])) same
            ∙ append_assoc c.sent (as_requests tid (Caches.flush c.write_cache).requests)
                (seek tid fd new ∷ []),
        ap (λ v. v.actual_size) w ∙ flush-size c.write_cache,
      )

  -- A seek to before the start changes no offset and tells the server nothing but what was written.
  pub capio_lseek-refuses :
      (n : ℕ)
      → Target whence offset old (negsuc n)
      → (c' : Client) × (capio_lseek tid fd offset whence c ≡ some (negsuc 0, c'))
        × (c'.errno ≡ einval)
        × (c'.tables ≡ c.tables)
  unfolding seek_to fail on_write_cache
  capio_lseek-refuses n t = (
    record (on_write_cache tid Caches.flush c) { errno = einval },
    capio_lseek-seek_by
        ∙ ap (λ op. op (on_write_cache tid Caches.flush c))
            (seek_to-Target tid fd old offset (negsuc n) whence t),
    refl,
    refl,
  )

-- The end of a file is asked for, and the answer is not used.
pub capio_lseek-end :
    (tid fd old : ℕ) (offset : ℤ) (c : Client) (a : ℤ) (rest : List ℤ)
    → c.read_cache.cache_offset ≡ c.read_cache.actual_size
    → exists_capio_fd fd c.tables ≡ true
    → get_capio_fd_offset fd c.tables ≡ some (pos old, c.tables)
    → c.answers ≡ a ∷ rest
    → (c' : Client) × (capio_lseek tid fd offset seek_to_end c ≡ some (pos old +ℤ offset, c'))
      × (get_capio_fd_offset fd c'.tables ≡ some (pos old +ℤ offset, c'.tables))
unfolding seek_by set_and_return ask next_answer send on_tables on_write_cache
capio_lseek-end tid fd old offset c a rest clean known at answers =
    let (d', s, g) = set_capio_fd_offset_lem fd (pos old) (pos old +ℤ offset) c.tables at in
    let c1 : Client = on_write_cache tid Caches.flush c in
    (
      record c1 { tables = d'; sent = c1.sent ++ (seek_end tid fd ∷ []); answers = rest },
      capio_lseek-seek_by tid fd old offset seek_to_end c clean known at
          ∙ ground (arith, s, answers),
      g,
    )
