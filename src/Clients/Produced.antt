-- ===== src/Clients/Produced.antt =====
-- Who counts as a producer of a file.
use capio.Base.{
  ℕ, ◌≡◌, ◌≢◌, refl, ap₂, some, List, Key, Bool, true, false, ◌||◌, string_key, nat_key, Bool-cases,
  inl, inr, ◌∙◌, beq_self,
}
use Prim.Native.String.{String}
use capio.Base.Map.{
  Map, lookup, insert, erase, lookup-insert_self, lookup-erase_self, lookup-erase_ne,
}
use capio.Clients.{
  ClientManager, contains, set_insert, register_produced_file, remove_client, is_producer, lists,
  get_app_name, add_to,
}

contains-set_insert : (p : String) (xs : List String) → contains p (set_insert p xs) ≡ true
unfolding set_insert
contains-set_insert p xs = elim (Bool-cases (contains p xs)) [
  | inl t ↦ rw t t
  | inr f ↦ rw (f, beq_self p)
]

module _ {ℓ} {K : Type ℓ} ⦃e : Key K⦄ where
  -- The key's files hold a file that is added to them.
  lists-insert :
      (k : K) (path : String) (files : List String) (m : Map K (List String))
      → lists k path (insert k (set_insert path files) m) ≡ true
  lists-insert k path files m =
      rw (lists, lookup-insert_self k (set_insert path files) m) (contains-set_insert path files)

  lists-add_to :
      (k : K) (path : String) (files : List String) (m : Map K (List String))
      → lookup k m ≡ some files
      → lists k path (add_to k path m) ≡ true
  lists-add_to k path files m p = rw (add_to, p) (lists-insert k path files m)

or_true : (a b : Bool) → b ≡ true → (a || b) ≡ true
or_true true b p = refl
or_true false b p = p

or_false : (a : Bool) → (a || false) ≡ a
or_false true = refl
or_false false = refl

true_or : (a b : Bool) → a ≡ true → (a || b) ≡ true
true_or a b p = rw p

-- Once a registered thread has produced a file, it counts as a producer of it, and so does each
-- thread of the same application, if the application is registered.
pub is_producer-register_produced_file :
    (tid other : ℕ) (path : String) (files app_files : List String) (c : ClientManager)
    → lookup tid c.files_created_by_producer ≡ some files
    → lookup (get_app_name tid c) c.files_created_by_app_name ≡ some app_files
    → get_app_name other c ≡ get_app_name tid c
    → (is_producer tid path (register_produced_file tid path c) ≡ true)
      × (is_producer other path (register_produced_file tid path c) ≡ true)
unfolding is_producer register_produced_file get_app_name
is_producer-register_produced_file tid other path files app_files c p q same =
    let app : lists (get_app_name other c) path
          (add_to (get_app_name tid c) path c.files_created_by_app_name)
        ≡ true =
      rw same (lists-add_to (get_app_name tid c) path app_files c.files_created_by_app_name q) in
    rw (register_produced_file, p)
      (true_or _ _ (lists-insert tid path files c.files_created_by_producer), or_true _ _ app)

-- When a thread is removed, the files of its whole application are forgotten: another thread of the
-- application is from then on no producer of a file that it did not produce itself.
pub remove_client_forgets :
    (tid other : ℕ) (path : String) (c : ClientManager)
    → tid ≢ other
    → get_app_name other c ≡ get_app_name tid c
    → is_producer other path (remove_client tid c) ≡ lists other path c.files_created_by_producer
unfolding is_producer remove_client get_app_name
remove_client_forgets tid other path c ne same =
    let shared : lists (get_app_name other c) path
          (erase (get_app_name tid c) c.files_created_by_app_name)
        ≡ false =
      rw (same, lists, lookup-erase_self (get_app_name tid c) c.files_created_by_app_name) in
    let own : lists other path (erase tid c.files_created_by_producer)
        ≡ lists other path c.files_created_by_producer =
      rw (lists, lookup-erase_ne tid other c.files_created_by_producer ne) in
    ap₂ (λ a b. a || b) own shared ∙ or_false _
