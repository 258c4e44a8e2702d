-- ===== src/Caches/Written.antt =====
-- What a client writes reaches the server: the requests and the elements of the queue are those of
-- the bytes in the order that they were written in.
use capio.Base.{
  ℕ, ◌+◌, ◌-◌, ◌≤◌, ◌<◌, ◌≡◌, refl, ap, Option, none, some, List, [], ◌∷◌, ◌++◌, nat_beq, leb, ltb,
  false, length, arith, tests, sym, ◌∙◌, subst, Option-cases, Bool-cases, inl, inr, nat_beq_iff,
}
use mathlib.Core.List.{append-nil, append_assoc}
use capio.Caches.{
  WriteCache, new_write_cache, split, flush, reserve_line, append_line, flush_full, write_line,
  change_fd, write_past, write_flushed, write_on, write,
}
use capio.Caches.Line.{
  tagged, Sent, nothing, one_more, Cached, no_line, a_line, tagged-append, flush-Cached,
  append-Cached, idle,
}

-- What a cache holds: the bytes that the server has been told to take, and behind them the line.
pub record IsCache (size : ℕ) (c : WriteCache) (st : List (Option ℕ × ℕ)) : Type 0 where
  pub taken : List (Option ℕ × ℕ)
  pub line : List ℕ
  pub cached : Cached size c taken line
  pub all : taken ++ tagged c.fd line ≡ st

flush-IsCache :
    (size : ℕ) (c : WriteCache) (st : List (Option ℕ × ℕ))
    → IsCache size c st
    → Cached size (flush c) st []
flush-IsCache size c st v =
    subst (λ s. Cached size (flush c) s []) v.all (flush-Cached size c v.taken v.line v.cached)

Cached-size :
    (size : ℕ) (c : WriteCache) (st : List (Option ℕ × ℕ)) (line : List ℕ)
    → Cached size c st line
    → (c.actual_size ≡ length line) × (c.max_line_size ≡ size) × (length line ≤ size)
Cached-size size _ st _ (no_line fd rs es _ v) = (refl, refl, omega arith)
Cached-size size _ st line (a_line fd rs es _ _ v g l) = (refl, refl, l)

empty-IsCache :
    (size : ℕ) (c : WriteCache) (st : List (Option ℕ × ℕ)) → Cached size c st [] → IsCache size c st
empty-IsCache size c st v = record { taken = st; line = []; cached = v; all = append-nil st }

flush_full-IsCache :
    (size : ℕ) (c : WriteCache) (st : List (Option ℕ × ℕ))
    → IsCache size c st
    → IsCache size (flush_full c) st
unfolding flush_full
flush_full-IsCache size c st v = elim (Bool-cases (nat_beq c.actual_size c.max_line_size)) [
  | inl t ↦ rw (flush_full, t) (empty-IsCache size (flush c) st (flush-IsCache size c st v))
  | inr f ↦ rw (flush_full, f) v
]

append_fd : (bytes : List ℕ) (c : WriteCache) → (append_line bytes (reserve_line c)).fd ≡ c.fd
unfolding append_line reserve_line
append_fd bytes c = elim (Option-cases c.cache) [
  | inl p ↦ ground (arith, p)
  | inr (i, p) ↦ ground (arith, p)
]

append-IsCache :
    (size : ℕ) (bytes : List ℕ) (c : WriteCache) (st : List (Option ℕ × ℕ)) (v : IsCache size c st)
    → 0 < length bytes
    → length v.line + length bytes ≤ size
    → IsCache size (append_line bytes (reserve_line c)) (st ++ tagged c.fd bytes)
append-IsCache size bytes c st v h k = record {
  taken = v.taken;
  line = v.line ++ bytes;
  cached = append-Cached size bytes c v.taken v.line v.cached h k;
  all = rw (append_fd bytes c) (
      ap (λ x. v.taken ++ x) (tagged-append c.fd v.line bytes)
      ∙ sym (append_assoc v.taken (tagged c.fd v.line) (tagged c.fd bytes))
      ∙ ap (λ x. x ++ tagged c.fd bytes) v.all);
}

write_line-IsCache :
    (size : ℕ) (bytes : List ℕ) (c : WriteCache) (st : List (Option ℕ × ℕ)) (v : IsCache size c st)
    → length v.line + length bytes ≤ size
    → IsCache size (write_line bytes c) (st ++ tagged c.fd bytes)
write_line-IsCache size [] c st v k =
    unfold write_line in subst (IsCache size c) (sym (append-nil st)) v
write_line-IsCache size (b ∷ bs) c st v k =
    let e : nat_beq (length (b ∷ bs)) 0 ≡ false = ground arith in
    unfold write_line in
    rw e (
      flush_full-IsCache size (append_line (b ∷ bs) (reserve_line c)) (st ++ tagged c.fd (b ∷ bs))
        (append-IsCache size (b ∷ bs) c st v (omega arith) k))

write_past-Cached :
    (size : ℕ) (bytes : List ℕ) (c : WriteCache) (st : List (Option ℕ × ℕ)) (line : List ℕ)
    → Cached size c st line
    → line ≡ []
    → Cached size (write_past bytes c) (st ++ tagged c.fd bytes) []
unfolding write_past
write_past-Cached size bytes _ st _ (no_line fd rs es _ v) h =
    no_line fd (rs ++ (record { fd = fd; count = length bytes } ∷ [])) (es ++ split size bytes)
      (st ++ tagged fd bytes) (one_more fd bytes rs es st v)
write_past-Cached size bytes _ st line (a_line fd rs es _ _ v g l) h =
    absurd (omega (arith, ap length h))

write_flushed-IsCache :
    (size : ℕ) (bytes : List ℕ) (c : WriteCache) (st : List (Option ℕ × ℕ))
    → Cached size c st []
    → IsCache size (write_flushed bytes c) (st ++ tagged c.fd bytes)
unfolding write_flushed empty-IsCache
write_flushed-IsCache size bytes c st v =
    let (a, m, l) = Cached-size size c st [] v in
    elim (Bool-cases (ltb c.max_line_size (length bytes - c.actual_size))) [
      | inl t ↦
          rw (write_flushed, t)
            (empty-IsCache size (write_past bytes c) (st ++ tagged c.fd bytes)
              (write_past-Cached size bytes c st [] v refl))
      | inr f ↦
          rw (write_flushed, f)
            (write_line-IsCache size bytes c st (empty-IsCache size c st v) (omega tests))
    ]

flush_fd : (c : WriteCache) → (flush c).fd ≡ c.fd
unfolding flush
flush_fd c = ground arith

write_on-IsCache :
    (size : ℕ) (bytes : List ℕ) (c : WriteCache) (st : List (Option ℕ × ℕ))
    → IsCache size c st
    → IsCache size (write_on bytes c) (st ++ tagged c.fd bytes)
unfolding write_on
write_on-IsCache size bytes c st v =
    let (a, m, l) = Cached-size size c v.taken v.line v.cached in
    elim (Bool-cases (leb (length bytes) (c.max_line_size - c.actual_size))) [
      | inl t ↦ rw (write_on, t) (write_line-IsCache size bytes c st v (omega tests))
      | inr f ↦
          rw (write_on, f)
            (subst (λ g. IsCache size (write_flushed bytes (flush c)) (st ++ tagged g bytes))
              (flush_fd c)
              (write_flushed-IsCache size bytes (flush c) st (flush-IsCache size c st v)))
    ]

set_fd-Cached :
    (size : ℕ) (g : Option ℕ) (c : WriteCache) (st : List (Option ℕ × ℕ)) (line : List ℕ)
    → Cached size c st line
    → Cached size (record c { fd = g }) st line
set_fd-Cached size g _ st _ (no_line fd rs es _ v) = no_line g rs es st v
set_fd-Cached size g _ st line (a_line fd rs es _ _ v h l) = a_line g rs es st line v h l

change_fd-IsCache :
    (size fd : ℕ) (c : WriteCache) (st : List (Option ℕ × ℕ))
    → IsCache size c st
    → IsCache size (change_fd fd c) st × ((change_fd fd c).fd ≡ some fd)
unfolding change_fd
change_fd-IsCache size fd c st v =
    let flushed : IsCache size (record (flush c) { fd = some fd }) st =
      empty-IsCache size (record (flush c) { fd = some fd }) st
        (set_fd-Cached size (some fd) (flush c) st [] (flush-IsCache size c st v)) in
    elim (Option-cases c.fd) [
      | inl p ↦ rw (change_fd, p) (flushed, refl)
      | inr (g, p) ↦ elim (Bool-cases (nat_beq g fd)) [
        | inl t ↦ rw (change_fd, p, t) (v, p ∙ ap some ((nat_beq_iff g fd).0 t))
        | inr f ↦ rw (change_fd, p, f) (flushed, refl)
      ]
    ]

-- A write: the bytes are behind all that the cache held.
write-IsCache :
    (size fd : ℕ) (bytes : List ℕ) (c : WriteCache) (st : List (Option ℕ × ℕ))
    → IsCache size c st
    → IsCache size (write fd bytes c) (st ++ tagged (some fd) bytes)
unfolding write
write-IsCache size fd bytes c st v =
    let (k, e) = change_fd-IsCache size fd c st v in
    subst (λ g. IsCache size (write fd bytes c) (st ++ tagged g bytes)) e
      (write_on-IsCache size bytes (change_fd fd c) st k)

-- The writes of a client, one after the other.
pub writes : List (ℕ × List ℕ) → WriteCache → WriteCache
writes [] c = c
writes ((fd, bytes) ∷ ws) c = writes ws (write fd bytes c)

abbrev pub all_tagged : List (ℕ × List ℕ) → List (Option ℕ × ℕ)
all_tagged [] = []
all_tagged ((fd, bytes) ∷ ws) = tagged (some fd) bytes ++ all_tagged ws

writes-IsCache :
    (size : ℕ) (ws : List (ℕ × List ℕ)) (c : WriteCache) (st : List (Option ℕ × ℕ))
    → IsCache size c st
    → IsCache size (writes ws c) (st ++ all_tagged ws)
unfolding writes
writes-IsCache size [] c st v = subst (IsCache size c) (sym (append-nil st)) v
writes-IsCache size ((fd, bytes) ∷ ws) c st v =
    subst (IsCache size (writes ws (write fd bytes c)))
      (append_assoc st (tagged (some fd) bytes) (all_tagged ws))
      (writes-IsCache size ws (write fd bytes c) (st ++ tagged (some fd) bytes)
        (write-IsCache size fd bytes c st v))

Cached-Sent :
    (size : ℕ) (c : WriteCache) (st : List (Option ℕ × ℕ)) (line : List ℕ)
    → Cached size c st line
    → line ≡ []
    → Sent size c.requests c.elements st
Cached-Sent size _ st _ (no_line fd rs es _ v) h = v
Cached-Sent size _ st line (a_line fd rs es _ _ v g l) h = absurd (omega (arith, ap length h))

-- After any writes of a client and a flush, the server is told to take just the bytes that were
-- written, in the order that they were written in and each for its descriptor.
pub writes_lem :
    (size : ℕ) (ws : List (ℕ × List ℕ))
    → let c = flush (writes ws (new_write_cache size)) in
      Sent size c.requests c.elements (all_tagged ws)
writes_lem size ws =
    let c : WriteCache = writes ws (new_write_cache size) in
    let start : IsCache size (new_write_cache size) [] =
      unfold new_write_cache in
      (empty-IsCache size (idle size none [] []) [] (no_line none [] [] [] nothing)) in
    Cached-Sent size (flush c) (all_tagged ws) []
      (flush-IsCache size c (all_tagged ws)
        (writes-IsCache size ws (new_write_cache size) [] start))
      refl
