-- ===== src/File/Data.antt =====
-- The bytes of a file through createBuffer, expandBuffer and the writes.
use capio.Base.{
  ℕ, ◌≤◌, ◌<◌, ◌≡◌, ap, Option, none, some, ltb, if◌then◌else◌, arith, Bool, true, false,
  Bool-cases, Option-cases, inl, inr, ◌⊎◌, sym, subst, subst₂, ltb→ge, ltb→lt,
}
use capio.Sectors.{get_file_size}
use capio.Sectors.Order.{IsValid}
use capio.Sectors.Cover.{covered}
use capio.Buffer.{System, FileBuffer, heap_allocate, mapped_allocate, grow}
use capio.Buffer.Grow.{byte, Holds, grow-size, grow-Holds, grow-byte, covered-lt-size}
use capio.File.{CapioFile, new_block, create_buffer, expand_buffer}

pub record IsSound (f : CapioFile) : Type 0 where
  pub sorted : IsValid f.sectors
  pub holds : Holds f.buffer f.sectors

-- An operation that only readies the buffer keeps the sectors and their bytes.
pub record Keeps (f f' : CapioFile) : Type 0 where
  pub sound : IsSound f'
  pub same_sectors : f'.sectors ≡ f.sectors
  pub same_bytes : (x : ℕ) → covered x f.sectors ≡ true → byte f'.buffer x ≡ byte f.buffer x

new_block-Holds :
    (sys : System) (home : Bool) (f : CapioFile) (b : FileBuffer)
    → get_file_size f.sectors ≡ 0
    → new_block sys home f ≡ some b
    → Holds b f.sectors
unfolding new_block heap_allocate mapped_allocate
new_block-Holds sys home f b h e = record {
  within = omega arith;
  nothing = ground arith;
  mapping = ground arith;
}

create_buffer_cases :
    (sys : System) (home : Bool) (f f' : CapioFile)
    → create_buffer sys home f ≡ some f'
    → (f'.sectors ≡ f.sectors)
      × ((f'.buffer ≡ f.buffer)
          ⊎ ((new_block sys home f ≡ some f'.buffer) × (f.buffer.block ≡ none)))
unfolding create_buffer
create_buffer_cases sys home f f' e = elim (Option-cases f.buffer.block) [
  | inr (m, p) ↦ (ground arith, inl (ground arith))
  | inl p ↦ elim (Option-cases (new_block sys home f)) [
    | inl q ↦ ground arith
    | inr (b, q) ↦ (ground arith, inr (ground arith, p))
  ]
]

same_buffer-Keeps :
    (f f' : CapioFile) → IsSound f → f'.sectors ≡ f.sectors → f'.buffer ≡ f.buffer → Keeps f f'
same_buffer-Keeps f f' s p q = record {
  sound = record {
    sorted = subst IsValid (sym p) s.sorted;
    holds = subst₂ Holds (sym q) (sym p) s.holds;
  };
  same_sectors = p;
  same_bytes = λ x c. ap (λ b. byte b x) q;
}

-- A file without a block holds no data.
no_block-covered :
    (f : CapioFile) (x : ℕ) → IsSound f → f.buffer.block ≡ none → covered x f.sectors ≡ false
no_block-covered f x s p = elim (Bool-cases (covered x f.sectors)) [
  | inr c ↦ c
  | inl c ↦
      absurd
        (omega (arith, covered-lt-size x 0 f.sectors s.sorted c, s.holds.within, s.holds.nothing p))
]

pub create_buffer-Keeps :
    (sys : System) (home : Bool) (f f' : CapioFile)
    → IsSound f
    → create_buffer sys home f ≡ some f'
    → Keeps f f'
create_buffer-Keeps sys home f f' s e =
    let c = create_buffer_cases sys home f f' e in
    elim c.1 [
      | inl q ↦ same_buffer-Keeps f f' s c.0 q
      | inr (q, p) ↦ record {
        sound = record {
          sorted = subst IsValid (sym c.0) s.sorted;
          holds = subst (Holds f'.buffer) (sym c.0) (
              new_block-Holds sys home f f'.buffer
                (omega (arith, s.holds.within, s.holds.nothing p)) q);
        };
        same_sectors = c.0;
        same_bytes = λ x k. cc (no_block-covered f x s p);
      }
    ]

-- The test of write_handler: the buffer grows only if the write goes past its end.
unfoldable pub expand_if_needed : System → ℕ → CapioFile → Option CapioFile
expand_if_needed sys end_of_write f =
    if ltb f.buffer.size end_of_write then expand_buffer sys end_of_write f else some f

expand_if_needed_cases :
    (sys : System) (n : ℕ) (f f' : CapioFile)
    → expand_if_needed sys n f ≡ some f'
    → (f'.sectors ≡ f.sectors)
      × (((f'.buffer ≡ f.buffer) × (n ≤ f.buffer.size))
          ⊎ ((grow sys n f.sectors f.buffer ≡ some f'.buffer) × (f.buffer.size < n)))
unfolding expand_if_needed expand_buffer
expand_if_needed_cases sys n f f' e = elim (Bool-cases (ltb f.buffer.size n)) [
  | inr p ↦ (ground arith, inl (ground arith, ltb→ge f.buffer.size n p))
  | inl p ↦ elim (Option-cases (grow sys n f.sectors f.buffer)) [
    | inl q ↦ ground arith
    | inr (b, q) ↦ (ground arith, inr (ground arith, ltb→lt f.buffer.size n p))
  ]
]

pub expand_if_needed-Keeps :
    (sys : System) (n : ℕ) (f f' : CapioFile)
    → IsSound f
    → expand_if_needed sys n f ≡ some f'
    → Keeps f f' × (n ≤ f'.buffer.size)
expand_if_needed-Keeps sys n f f' s e =
    let c = expand_if_needed_cases sys n f f' e in
    elim c.1 [
      | inl (q, l) ↦ (same_buffer-Keeps f f' s c.0 q, subst (λ b. n ≤ b.size) (sym q) l)
      | inr (q, l) ↦
          let l' : f.buffer.size ≤ n = omega arith in
          (
            record {
              sound = record {
                sorted = subst IsValid (sym c.0) s.sorted;
                holds =
                    subst (Holds f'.buffer) (sym c.0)
                      (grow-Holds sys n f.sectors f.buffer f'.buffer s.sorted s.holds l' q);
              };
              same_sectors = c.0;
              same_bytes = grow-byte sys n f.sectors f.buffer f'.buffer s.sorted s.holds l' q;
            },
            omega (arith, grow-size sys n f.sectors f.buffer f'.buffer s.sorted s.holds l' q),
          )
    ]
