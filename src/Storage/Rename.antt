-- ===== src/Storage/Rename.antt =====
-- rename: what becomes of the paths, the descriptors and the objects.
use capio.Base.{
  ℕ, ◌≡◌, ◌≢◌, refl, ap, none, some, [], ◌∷◌, ◌==◌, if◌then◌else◌, arith, ◌∙◌, string_key, nat_key,
  Bool-cases, inl, inr,
}
use Prim.Native.String.{String}
use mathlib.Core.Option
use capio.Base.Map.{
  Map, lookup, insert, erase, lookup-erase_self, lookup-erase_ne, lookup-insert, lookup-erase,
}
use capio.Storage.{Fd, fd_key, OpenedFd, StorageManager, rename, rename_opened, move_node, try_get}

-- The entry of a descriptor after a rename.
pub retarget : String → String → OpenedFd → OpenedFd
retarget oldpath newpath entry =
    if entry.path == oldpath then record entry { path = newpath } else entry

retarget_same :
    (oldpath newpath : String) (entry : OpenedFd)
    → entry.path ≡ oldpath
    → retarget oldpath newpath entry ≡ record entry { path = newpath }
unfolding retarget
retarget_same oldpath newpath entry h = rw ((string_key.decides entry.path oldpath).1 h)

lookup-rename_opened :
    (oldpath newpath : String) (fd : Fd) (m : Map Fd OpenedFd)
    → lookup fd (rename_opened oldpath newpath m)
      ≡ Option.map (retarget oldpath newpath) (lookup fd m)
unfolding lookup rename_opened retarget
lookup-rename_opened oldpath newpath fd [] = refl
lookup-rename_opened oldpath newpath fd ((d, entry) ∷ m) = elim (Bool-cases (d == fd)) [
  | inl t ↦ rw t
  | inr f ↦ rw f (lookup-rename_opened oldpath newpath fd m)
]

module _ (oldpath newpath : String) (id : ℕ) (m : StorageManager)
    (here : try_get oldpath m ≡ some id) (ne : oldpath ≢ newpath) where
  abbrev moved : StorageManager
  moved = record m {
    opened = rename_opened oldpath newpath m.opened;
    storage = insert newpath id (erase oldpath m.storage);
  }

  -- rename of a file to a path that is free: the new path names the same file, the old one none,
  -- every other path what it did, and every descriptor of the old path, and no other, has the new
  -- path, with its file and its offset; the files themselves are as they were.
  pub rename_lem :
      try_get newpath m ≡ none
      → (m' : StorageManager) × (rename oldpath newpath m ≡ some (tt, m'))
        × ((p : String)
            → try_get p m'
              ≡ (if newpath == p then some id else if oldpath == p then none else try_get p m))
        × ((fd : Fd)
            → lookup fd m'.opened ≡ Option.map (retarget oldpath newpath) (lookup fd m.opened))
        × (m'.objects ≡ m.objects)
        × (m'.offsets ≡ m.offsets)
  unfolding rename try_get move_node
  rename_lem free = (
    moved,
    ground (arith, here, lookup-erase_ne oldpath newpath m.storage ne, free),
    λ p.
        lookup-insert newpath p id (erase oldpath m.storage)
        ∙ ap (λ o. if newpath == p then some id else o) (lookup-erase oldpath p m.storage),
    λ fd. lookup-rename_opened oldpath newpath fd m.opened,
    refl,
    refl,
  )

  -- rename of a file to a path that another file has: the path still names the other file, and the
  -- renamed file is destroyed, though its descriptors, which now have the new path, point to it.
  pub rename_onto_file :
      (other : ℕ) (fd : Fd) (entry : OpenedFd)
      → try_get newpath m ≡ some other
      → lookup fd m.opened ≡ some entry
      → entry.path ≡ oldpath
      → entry.pointer ≡ some id
      → (m' : StorageManager) × (rename oldpath newpath m ≡ some (tt, m'))
        × (try_get newpath m' ≡ some other)
        × (try_get oldpath m' ≡ none)
        × (lookup id m'.objects ≡ none)
        × (lookup fd m'.opened ≡ some (record entry { path = newpath }))
  unfolding rename try_get move_node
  rename_onto_file other fd entry taken is_open same points = (
    record m {
      opened = rename_opened oldpath newpath m.opened;
      storage = erase oldpath m.storage;
      objects = erase id m.objects;
    },
    ground (arith, here, lookup-erase_ne oldpath newpath m.storage ne, taken),
    lookup-erase_ne oldpath newpath m.storage ne ∙ taken,
    lookup-erase_self oldpath m.storage,
    lookup-erase_self id m.objects,
    lookup-rename_opened oldpath newpath fd m.opened
        ∙ ap (Option.map (retarget oldpath newpath)) is_open
        ∙ ap some (retarget_same oldpath newpath entry same),
  )
