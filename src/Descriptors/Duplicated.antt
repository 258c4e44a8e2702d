-- ===== src/Descriptors/Duplicated.antt =====
-- A descriptor that is duplicated, dup_capio_fd of capio/posix/utils/filesystem.hpp.
use capio.Base.{
  ℕ, ◌≡◌, ◌≢◌, ap, sym, ◌∙◌, none, some, Bool, true, false, nat_beq, beq_self, string_key, nat_key,
  Bool-cases, inl, inr, arith,
}
use Prim.Native.String.{String}
use capio.Base.Int.{ℤ}
use capio.Base.Map.{lookup, insert, lookup-insert, lookup-insert_self, lookup-insert_ne}
use capio.Descriptors.{
  OpenFile, Descriptors, add_to_set, change_file, set_capio_fd_cloexec, dup_capio_fd,
  exists_capio_fd, get_capio_fd_path, get_capio_fd_offset, set_capio_fd_offset,
}
use capio.Descriptors.Consistent.{
  IsConsistent, names, link, listed, named, change_set-run, some_entry-none, put-new, offset_of,
}

module _ (oldfd newfd : ℕ) (is_cloexec : Bool) (d : Descriptors) (v : IsConsistent d)
    (known : exists_capio_fd oldfd d ≡ true) (free : exists_capio_fd newfd d ≡ false) where
  -- The two descriptors differ, since one is in the tables and the other is not.
  distinct : newfd ≢ oldfd
  distinct e = cc (sym known ∙ ap (λ x. exists_capio_fd x d) (sym e) ∙ free)

  -- The copy has the path and the offset of the descriptor: a new offset of the one is that of the other.
  pub dup_capio_fd_lem :
      (d' : Descriptors) × (path : String) × (file : OpenFile) × (dup_capio_fd oldfd newfd
          is_cloexec d
        ≡ some (tt, d'))
      × IsConsistent d'
      × (get_capio_fd_path oldfd d ≡ some path)
      × (get_capio_fd_path newfd d' ≡ some path)
      × (lookup oldfd d'.files ≡ some file)
      × (lookup newfd d'.files ≡ some (record file { is_cloexec = is_cloexec }))
  unfolding dup_capio_fd set_capio_fd_cloexec change_file exists_capio_fd get_capio_fd_path
  dup_capio_fd_lem =
      let (path, q) = named (lookup oldfd d.descriptors) (sym (v.same_fds oldfd) ∙ known) in
      let (file, f) = named (lookup oldfd d.files) known in
      let (fds, p) =
        listed oldfd (lookup path d.paths)
          (v.agree oldfd path ∙ ap (names path) q ∙ beq_self path) in
      let copy : OpenFile = record file { is_cloexec = is_cloexec } in
      let no_file : lookup newfd d.files ≡ none = some_entry-none _ free in
      let no_path : lookup newfd d.descriptors ≡ none =
        some_entry-none _ (sym (v.same_fds newfd) ∙ free) in
      let d' : Descriptors = record d {
        paths = insert path (add_to_set newfd fds) d.paths;
        files = insert newfd copy (insert newfd file d.files);
        descriptors = insert newfd path d.descriptors;
      } in
      (
        d',
        path,
        file,
        ground (
          arith,
          q,
          f,
          change_set-run path (add_to_set newfd) fds d p,
          put-new newfd file d.files no_file,
          lookup-insert_self newfd file d.files,
          put-new newfd path d.descriptors no_path,
        ),
        record {
          agree = link newfd path fds d.paths d.descriptors v.agree p no_path;
          same_fds = λ x.
              rw
                (
                  lookup-insert newfd x copy (insert newfd file d.files),
                  lookup-insert newfd x file d.files,
                  lookup-insert newfd x path d.descriptors,
                )
                (elim (Bool-cases (nat_beq newfd x)) [
                  | inl e ↦ rw e
                  | inr e ↦ rw e (v.same_fds x)
                ]);
        },
        q,
        lookup-insert_self newfd path d.descriptors,
        lookup-insert_ne newfd oldfd copy (insert newfd file d.files) distinct
            ∙ lookup-insert_ne newfd oldfd file d.files distinct
            ∙ f,
        lookup-insert_self newfd copy (insert newfd file d.files),
      )

-- Descriptors with one offset: the offset that the one is given is that of the other.
pub shared_offset :
    (oldfd newfd : ℕ) (file copy : OpenFile) (d : Descriptors) (new : ℤ)
    → lookup oldfd d.files ≡ some file
    → lookup newfd d.files ≡ some copy
    → copy.offset ≡ file.offset
    → (d' : Descriptors) × (set_capio_fd_offset oldfd new d ≡ some (tt, d'))
      × (get_capio_fd_offset newfd d' ≡ some (new, d'))
unfolding set_capio_fd_offset
shared_offset oldfd newfd file copy d new f g e =
    let d' : Descriptors = record d { offsets = insert file.offset new d.offsets } in
    (
      d',
      ground (arith, f),
      offset_of newfd copy new d' g (
          ap (λ j. lookup j (insert file.offset new d.offsets)) e
          ∙ lookup-insert_self file.offset new d.offsets),
    )
