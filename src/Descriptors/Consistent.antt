-- ===== src/Descriptors/Consistent.antt =====
-- The tables of the client agree: a path has the descriptors that have the path, and no other.
use capio.Base.{
  ℕ, suc, ◌≡◌, refl, ap, ap₂, Option, none, some, List, [], ◌∷◌, nat_beq, if◌then◌else◌, Bool, true,
  false, ◌||◌, ◌==◌, Key, string_key, nat_key, Bool-cases, Option-cases, inl, inr, sym, ◌∙◌, arith,
  beq_self, eq_of_beq, nat_beq_iff,
}
use Prim.Native.String.{String}
use capio.Base.Int.{ℤ}
use capio.Base.Map.{
  Map, lookup, insert, erase, lookup-insert, lookup-erase, lookup-insert_self, lookup-erase_self,
}
use capio.Base.State.{>>-run}
use capio.Descriptors.{
  OpenFile, Descriptors, put, holds, add_to_set, remove_from_set, add_capio_path, change_set,
  add_capio_fd, delete_capio_fd, some_entry, exists_capio_fd, get_capio_fd_path,
  get_capio_fd_offset,
}

abbrev pub lists : ℕ → Option (List ℕ) → Bool
lists fd none = false
lists fd (some fds) = holds fd fds

abbrev pub names : String → Option String → Bool
names path none = false
names path (some p) = p == path

abbrev pub Agree : Map String (List ℕ) → Map ℕ String → Type 0
Agree paths descriptors =
    (fd : ℕ) (path : String) → lists fd (lookup path paths) ≡ names path (lookup fd descriptors)

pub record IsConsistent (d : Descriptors) : Type 0 where
  pub agree : Agree d.paths d.descriptors
  pub same_fds : (fd : ℕ) → some_entry (lookup fd d.files) ≡ some_entry (lookup fd d.descriptors)

holds-add_to_set :
    (fd x : ℕ) (xs : List ℕ) → holds x (add_to_set fd xs) ≡ (nat_beq fd x || holds x xs)
unfolding add_to_set
holds-add_to_set fd x xs = elim (Bool-cases (holds fd xs)) [
  | inr f ↦ rw f
  | inl t ↦ rw t (elim (Bool-cases (nat_beq fd x)) [
    | inr f ↦ rw f
    | inl e ↦ rw e (ap (λ y. holds y xs) (sym ((nat_beq_iff fd x).0 e)) ∙ t)
  ])
]

holds-remove_from_set :
    (fd x : ℕ) (xs : List ℕ)
    → holds x (remove_from_set fd xs) ≡ (if nat_beq fd x then false else holds x xs)
unfolding remove_from_set
holds-remove_from_set fd x [] = ground arith
holds-remove_from_set fd x (y ∷ xs) = ground (arith, holds-remove_from_set fd x xs)

module _ (fd : ℕ) (path : String) (fds : List ℕ) (paths : Map String (List ℕ))
    (descriptors : Map ℕ String) (v : Agree paths descriptors)
    (p : lookup path paths ≡ some fds) where
  -- What the tables say of the descriptors of the path.
  same_set :
      (x : ℕ) (other : String)
      → (path == other) ≡ true
      → holds x fds ≡ names other (lookup x descriptors)
  same_set x other t =
      sym (ap (lists x) p) ∙ ap (λ q. lists x (lookup q paths)) (eq_of_beq path other t) ∙ v x other

  same_name :
      (x : ℕ) (other : String)
      → nat_beq fd x ≡ true
      → names other (lookup x descriptors) ≡ names other (lookup fd descriptors)
  same_name x other t = ap (λ y. names other (lookup y descriptors)) (sym ((nat_beq_iff fd x).0 t))

  pub link :
      lookup fd descriptors ≡ none
      → Agree (insert path (add_to_set fd fds) paths) (insert fd path descriptors)
  link q x other =
      rw (lookup-insert path other (add_to_set fd fds) paths, lookup-insert fd x path descriptors)
        (elim (Bool-cases (path == other)) [
          | inl t ↦ elim (Bool-cases (nat_beq fd x)) [
            | inl e ↦ rw (t, e) (holds-add_to_set fd x fds ∙ rw e (sym t))
            | inr e ↦ rw (t, e) (holds-add_to_set fd x fds ∙ rw e (same_set x other t))
          ]
          | inr f ↦ elim (Bool-cases (nat_beq fd x)) [
            | inl e ↦ rw (f, e) (v x other ∙ same_name x other e ∙ rw q (sym f))
            | inr e ↦ rw (f, e) (v x other)
          ]
        ])

  unlink :
      lookup fd descriptors ≡ some path
      → Agree (insert path (remove_from_set fd fds) paths) (erase fd descriptors)
  unlink q x other =
      rw (lookup-insert path other (remove_from_set fd fds) paths, lookup-erase fd x descriptors)
        (elim (Bool-cases (path == other)) [
          | inl t ↦ elim (Bool-cases (nat_beq fd x)) [
            | inl e ↦ rw (t, e) (holds-remove_from_set fd x fds ∙ rw e)
            | inr e ↦ rw (t, e) (holds-remove_from_set fd x fds ∙ rw e (same_set x other t))
          ]
          | inr f ↦ elim (Bool-cases (nat_beq fd x)) [
            | inl e ↦ rw (f, e) (v x other ∙ same_name x other e ∙ rw q f)
            | inr e ↦ rw (f, e) (v x other)
          ]
        ])

module _ {ℓ κ} {K : Type ℓ} {V : Type κ} ⦃e : Key K⦄ (k : K) (v : V) (m : Map K V) where
  pub put-new : lookup k m ≡ none → put k v m ≡ insert k v m
  unfolding put
  put-new h = rw (put, h)

  pub put-old : (w : V) → lookup k m ≡ some w → put k v m ≡ m
  unfolding put
  put-old w h = rw (put, h)

-- An empty set for a path that has none changes nothing that the tables say.
put-Agree :
    (path : String) (paths : Map String (List ℕ)) (descriptors : Map ℕ String)
    → Agree paths descriptors
    → Agree (put path [] paths) descriptors
put-Agree path paths descriptors v x other = elim (Option-cases (lookup path paths)) [
  | inr (fds, p) ↦ rw (put-old path [] paths fds p) (v x other)
  | inl p ↦
      rw (put-new path [] paths p, lookup-insert path other [] paths)
        (elim (Bool-cases (path == other)) [
          | inr f ↦ rw f (v x other)
          | inl t ↦ rw t (
              sym (ap (lists x) p)
              ∙ ap (λ q. lists x (lookup q paths)) (eq_of_beq path other t)
              ∙ v x other)
        ])
]

put-some :
    (path : String) (paths : Map String (List ℕ))
    → (fds : List ℕ) × (lookup path (put path [] paths) ≡ some fds)
put-some path paths = elim (Option-cases (lookup path paths)) [
  | inr (fds, p) ↦ (fds, rw (put-old path [] paths fds p) p)
  | inl p ↦ ([], rw (put-new path [] paths p) (lookup-insert_self path [] paths))
]

pub change_set-run :
    (path : String) (change : List ℕ → List ℕ) (fds : List ℕ) (d : Descriptors)
    → lookup path d.paths ≡ some fds
    → change_set path change d ≡ some (tt, record d { paths = insert path (change fds) d.paths })
unfolding change_set
change_set-run path change fds d h = rw (change_set, h)

pub offset_of :
    (fd : ℕ) (file : OpenFile) (offset : ℤ) (d : Descriptors)
    → lookup fd d.files ≡ some file
    → lookup file.offset d.offsets ≡ some offset
    → get_capio_fd_offset fd d ≡ some (offset, d)
unfolding get_capio_fd_offset
offset_of fd file offset d h k = ground (arith, h, k)

pub some_entry-none {ℓ} : {A : Type ℓ} (o : Option A) → some_entry o ≡ false → o ≡ none
some_entry-none none h = refl
some_entry-none (some a) h = cc

pub listed : (fd : ℕ) (o : Option (List ℕ)) → lists fd o ≡ true → (fds : List ℕ) × (o ≡ some fds)
listed fd none h = cc
listed fd (some fds) h = (fds, refl)

pub named : {A : Type 0} (o : Option A) → some_entry o ≡ true → (a : A) × (o ≡ some a)
named none h = cc
named (some a) h = (a, refl)

-- Adding a descriptor that is not in the tables: they still agree, and say of the descriptor the
-- path and the offset that were given.
pub add_capio_fd_lem :
    (path : String) (fd : ℕ) (offset size : ℤ) (flags : ℕ) (cloexec : Bool) (d : Descriptors)
    → IsConsistent d
    → get_capio_fd_path fd d ≡ none
    → (d' : Descriptors) × (add_capio_fd path fd offset size flags cloexec d ≡ some (tt, d'))
      × IsConsistent d'
      × (get_capio_fd_path fd d' ≡ some path)
      × (get_capio_fd_offset fd d' ≡ some (offset, d'))
unfolding add_capio_fd add_capio_path get_capio_fd_path
add_capio_fd_lem path fd offset size flags cloexec d v free =
    let (fds, p) = put-some path d.paths in
    let file : OpenFile = record {
      offset = d.next_offset;
      size = size;
      flags = flags;
      is_cloexec = cloexec;
    } in
    let no_file : lookup fd d.files ≡ none =
      some_entry-none _ (v.same_fds fd ∙ ap some_entry free) in
    let d' : Descriptors = record d {
      descriptors = insert fd path d.descriptors;
      paths = insert path (add_to_set fd fds) (put path [] d.paths);
      files = insert fd file d.files;
      offsets = insert d.next_offset offset d.offsets;
      next_offset = suc d.next_offset;
    } in
    (
      d',
      >>-run (change_set path (add_to_set fd)) _ (add_capio_path path d)
            (record d { paths = insert path (add_to_set fd fds) (put path [] d.paths) })
            (change_set-run path (add_to_set fd) fds (add_capio_path path d) p)
          ∙ ap₂ (λ a b. some (tt, record d' { descriptors = a; files = b }))
              (put-new fd path d.descriptors free) (put-new fd file d.files no_file),
      record {
        agree =
            link fd path fds (put path [] d.paths) d.descriptors
              (put-Agree path d.paths d.descriptors v.agree) p free;
        same_fds = λ x.
            rw (lookup-insert fd x file d.files, lookup-insert fd x path d.descriptors)
              (elim (Bool-cases (nat_beq fd x)) [ inl e ↦ rw e | inr e ↦ rw e (v.same_fds x) ]);
      },
      lookup-insert_self fd path d.descriptors,
      offset_of fd file offset d' (lookup-insert_self fd file d.files)
          (lookup-insert_self d.next_offset offset d.offsets),
    )

-- Deleting a descriptor that is in the tables: they still agree, and the descriptor is in none.
pub delete_capio_fd_lem :
    (fd : ℕ) (d : Descriptors)
    → IsConsistent d
    → exists_capio_fd fd d ≡ true
    → (d' : Descriptors) × (delete_capio_fd fd d ≡ some (tt, d'))
      × IsConsistent d'
      × (exists_capio_fd fd d' ≡ false)
      × (get_capio_fd_path fd d' ≡ none)
unfolding delete_capio_fd exists_capio_fd get_capio_fd_path
delete_capio_fd_lem fd d v h =
    let (path, q) = named (lookup fd d.descriptors) (sym (v.same_fds fd) ∙ h) in
    let (fds, p) =
      listed fd (lookup path d.paths) (v.agree fd path ∙ ap (names path) q ∙ beq_self path) in
    (
      record d {
        paths = insert path (remove_from_set fd fds) d.paths;
        descriptors = erase fd d.descriptors;
        files = erase fd d.files;
      },
      ground (arith, q, change_set-run path (remove_from_set fd) fds d p),
      record {
        agree = unlink fd path fds d.paths d.descriptors v.agree p q;
        same_fds = λ x.
            rw (lookup-erase fd x d.files, lookup-erase fd x d.descriptors)
              (elim (Bool-cases (nat_beq fd x)) [ inl e ↦ rw e | inr e ↦ rw e (v.same_fds x) ]);
      },
      ap some_entry (lookup-erase_self fd d.files),
      lookup-erase_self fd d.descriptors,
    )
