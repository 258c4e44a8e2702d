-- ===== src/File/Write.antt =====
-- A write of bytes to a file, as write_handler (capio/server/include/handlers/write.hpp) makes it.
use capio.Base.{
  ℕ, ◌+◌, ◌≤◌, ◌<◌, ◌≡◌, refl, ap, Option, none, some, List, leb, arith, true, Bool-cases,
  Option-cases, inl, inr, ◌⊎◌, ◌∙◌, ◌>>=◌, >>=-eq-some, sym, subst, length, leb→le,
}
use mathlib.Core.Option.{some-injective}
use capio.Base.Mem.{Mem, store, load, store-outside, load-store}
use capio.Sectors.{insert_sector}
use capio.Sectors.Cover.{covered, insert_sector-IsValid, get_file_size-insert_sector}
use capio.Buffer.{System}
use capio.Buffer.Grow.{byte, byte_of_block}
use capio.File.{CapioFile, create_buffer, read_from_queue, add_sector, write_block}
use capio.File.Data.{IsSound, Keeps, create_buffer-Keeps, expand_if_needed, expand_if_needed-Keeps}

-- What write_handler does to the file: the buffer is made and grown as needed, the bytes that the
-- queue hands out are put into it, and only then the sector is inserted.
unfoldable pub write_file : System → ℕ → List ℕ → CapioFile → Option CapioFile
write_file sys offset bytes f = do
  f' ← create_buffer sys true f
  f'' ← expand_if_needed sys (offset + length bytes) f'
  f''' ← read_from_queue offset bytes f''
  some (add_sector offset (offset + length bytes) f''')

-- The bytes of the file in a range.
abbrev pub read_file : CapioFile → ℕ → ℕ → Option (List ℕ)
read_file f offset count = elim f.buffer.block [ none ↦ none | some m ↦ some (load m offset count) ]

abbrev with_block : CapioFile → Mem → CapioFile
with_block f m = record f { buffer = record (f.buffer) { block = some m } }

write_block-inv :
    (offset : ℕ) (bytes : List ℕ) (f f' : CapioFile)
    → write_block offset bytes f ≡ some f'
    → (m : Mem) × (f.buffer.block ≡ some m)
      × (offset + length bytes ≤ f.buffer.size)
      × (with_block f (store m offset bytes) ≡ f')
unfolding write_block
write_block-inv offset bytes f f' e = elim (Option-cases f.buffer.block) [
  | inl p ↦ ground arith
  | inr (m, p) ↦ elim (Bool-cases (leb (offset + length bytes) f.buffer.size)) [
    | inr k ↦ ground arith
    | inl k ↦ (m, p, leb→le (offset + length bytes) f.buffer.size k, ground arith)
  ]
]

-- What a write of bytes from an offset on does to a file, apart from its sectors.
pub record Stored (offset : ℕ) (bytes : List ℕ) (f f' : CapioFile) : Type 0 where
  pub sound : IsSound f'
  pub same_sectors : f'.sectors ≡ f.sectors
  pub room : offset + length bytes ≤ f'.buffer.size
  pub stored : read_file f' offset (length bytes) ≡ some bytes
  pub elsewhere :
      (x : ℕ)
      → covered x f.sectors ≡ true
      → (x < offset) ⊎ (offset + length bytes ≤ x)
      → byte f'.buffer x ≡ byte f.buffer x

write_block-Stored :
    (offset : ℕ) (bytes : List ℕ) (f f' : CapioFile)
    → IsSound f
    → write_block offset bytes f ≡ some f'
    → Stored offset bytes f f'
write_block-Stored offset bytes f f' s e =
    let (m, p, l, q) = write_block-inv offset bytes f f' e in
    subst (Stored offset bytes f) q (record {
      sound = record {
        sorted = s.sorted;
        holds = record { within = s.holds.within; nothing = λ h. cc; mapping = s.holds.mapping };
      };
      same_sectors = refl;
      room = l;
      stored = ap some (load-store m offset bytes);
      elsewhere =
          λ x c h. ap some (store-outside m offset x bytes h) ∙ sym (byte_of_block f.buffer m x p);
    })

Stored-Keeps :
    (offset : ℕ) (bytes : List ℕ) (f g f' : CapioFile)
    → Keeps f g
    → Stored offset bytes g f'
    → Stored offset bytes f f'
Stored-Keeps offset bytes f g f' k w = record {
  sound = w.sound;
  same_sectors = w.same_sectors ∙ k.same_sectors;
  room = w.room;
  stored = w.stored;
  elsewhere = λ x c h.
      w.elsewhere x (subst (λ s. covered x s ≡ true) (sym k.same_sectors) c) h ∙ k.same_bytes x c;
}

add_sector-IsSound :
    (s e : ℕ) (f : CapioFile) → IsSound f → s ≤ e → e ≤ f.buffer.size → IsSound (add_sector s e f)
unfolding add_sector
add_sector-IsSound s e f v h l = record {
  sorted = insert_sector-IsValid s e f.sectors h v.sorted;
  holds = record {
    within = omega (arith, get_file_size-insert_sector s e f.sectors h v.sorted, v.holds.within);
    nothing = v.holds.nothing;
    mapping = v.holds.mapping;
  };
}

-- What a write does to a file.
pub record Written (offset : ℕ) (bytes : List ℕ) (f f' : CapioFile) : Type 0 where
  pub sound : IsSound f'
  pub sectors : f'.sectors ≡ insert_sector offset (offset + length bytes) f.sectors
  pub read_back : read_file f' offset (length bytes) ≡ some bytes
  pub elsewhere :
      (x : ℕ)
      → covered x f.sectors ≡ true
      → (x < offset) ⊎ (offset + length bytes ≤ x)
      → byte f'.buffer x ≡ byte f.buffer x

Stored-Written :
    (offset : ℕ) (bytes : List ℕ) (f f' : CapioFile)
    → Stored offset bytes f f'
    → Written offset bytes f (add_sector offset (offset + length bytes) f')
unfolding add_sector
Stored-Written offset bytes f f' w = record {
  sound =
      unfold add_sector in
      add_sector-IsSound offset (offset + length bytes) f' w.sound (omega arith) w.room;
  sectors = ap (insert_sector offset (offset + length bytes)) w.same_sectors;
  read_back = w.stored;
  elsewhere = w.elsewhere;
}

-- A write to a sound file that goes through leaves a sound file: its bytes read back as written,
-- every other byte that counted as data is as it was, though the buffer may have been made or moved,
-- and the sectors are those that insertSector makes of the range written.
pub write_file-Written :
    (sys : System) (offset : ℕ) (bytes : List ℕ) (f f' : CapioFile)
    → IsSound f
    → write_file sys offset bytes f ≡ some f'
    → Written offset bytes f f'
unfolding write_file read_from_queue
write_file-Written sys offset bytes f f' s e =
    let (g, p, e₁) =
      >>=-eq-some (create_buffer sys true f)
        (λ g. expand_if_needed sys (offset + length bytes) g >>= λ h.
          write_block offset bytes h >>= λ k. some (add_sector offset (offset + length bytes) k))
        e in
    let (h, q, e₂) =
      >>=-eq-some (expand_if_needed sys (offset + length bytes) g)
        (λ h.
          write_block offset bytes h >>= λ k. some (add_sector offset (offset + length bytes) k))
        e₁ in
    let (k, r, e₃) =
      >>=-eq-some (write_block offset bytes h)
        (λ k. some (add_sector offset (offset + length bytes) k)) e₂ in
    let kg : Keeps f g = create_buffer-Keeps sys true f g s p in
    let kh : Keeps g h = (expand_if_needed-Keeps sys (offset + length bytes) g h kg.sound q).0 in
    subst (Written offset bytes f) (some-injective _ _ e₃) (
      Stored-Written offset bytes f k (
        Stored-Keeps offset bytes f g k kg
          (Stored-Keeps offset bytes g h k kh (write_block-Stored offset bytes h k kh.sound r))))
