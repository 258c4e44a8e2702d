-- ===== src/Paths.antt =====
-- What std::filesystem::path makes of a path, on POSIX, where capio/posix/utils/filesystem.hpp uses it:
-- its elements, `/`, lexically_normal and lexically_relative; and is_forbidden_path, is_prefix and
-- capio_normal_path. A path is a list of characters.
pub mod Normal
use capio.Base.{
  ℕ, zero, suc, ◌+◌, ◌-◌, ◌≡◌, Option, none, some, List, [], ◌∷◌, ◌++◌, nat_beq, ltb, if◌then◌else◌,
  Bool, true, false, not, ◌&&◌, ◌||◌,
}
use Prim.Native.Char.{Char, code}

abbrev pub FilePath : Type 0
FilePath = List Char

abbrev pub is_slash : Char → Bool
is_slash c = nat_beq (code c) 47

abbrev pub is_dot_char : Char → Bool
is_dot_char c = nat_beq (code c) 46

abbrev pub slash : Char
slash = "/"

abbrev pub dot_char : Char
dot_char = "."

abbrev pub is_empty {ℓ} : {A : Type ℓ} → List A → Bool
is_empty [] = true
is_empty (x ∷ xs) = false

unfoldable pub is_dot : FilePath → Bool
is_dot (c ∷ []) = is_dot_char c
is_dot _ = false

unfoldable pub is_dotdot : FilePath → Bool
is_dotdot (c ∷ d ∷ []) = is_dot_char c && is_dot_char d
is_dotdot _ = false

abbrev pub dotdot : FilePath
dotdot = dot_char ∷ dot_char ∷ []

-- `rfind(t, 0) == 0`
unfoldable pub starts_with : FilePath → FilePath → Bool
starts_with [] s = true
starts_with (c ∷ t) [] = false
starts_with (c ∷ t) (d ∷ s) = nat_beq (code c) (code d) && starts_with t s

unfoldable pub equal_texts : FilePath → FilePath → Bool
equal_texts [] [] = true
equal_texts (c ∷ t) (d ∷ s) = nat_beq (code c) (code d) && equal_texts t s
equal_texts _ _ = false

abbrev pub is_absolute : FilePath → Bool
is_absolute [] = false
is_absolute (c ∷ s) = is_slash c

unfoldable pub ends_with_slash : FilePath → Bool
ends_with_slash [] = false
ends_with_slash (c ∷ []) = is_slash c
ends_with_slash (c ∷ d ∷ s) = ends_with_slash (d ∷ s)

-- The texts between the slashes.
abbrev pub before_first : Char → List FilePath → List FilePath
before_first c [] = (c ∷ []) ∷ []
before_first c (p ∷ ps) = (c ∷ p) ∷ ps

unfoldable pub parts : FilePath → List FilePath
parts [] = [] ∷ []
parts (c ∷ s) = let rest = parts s in if is_slash c then [] ∷ rest else before_first c rest

unfoldable pub filenames : List FilePath → List FilePath
filenames [] = []
filenames (p ∷ ps) = let rest = filenames ps in if is_empty p then rest else p ∷ rest

-- The elements: the root, the file names, and an empty one where the path ends with a slash.
unfoldable pub elements : FilePath → List FilePath
elements p =
    let names = filenames (parts p) in
    (if is_absolute p then (slash ∷ []) ∷ [] else [])
    ++ (names ++ (if ends_with_slash p && not (is_empty names) then [] ∷ [] else []))

-- operator/
unfoldable pub join_path : FilePath → FilePath → FilePath
join_path p q =
    if is_absolute q
    then q
    else if is_empty p || ends_with_slash p
    then p ++ q
    else p ++ (slash ∷ q)

-- The names of a normal path, from the last to the first: a name goes onto those that are there, and a
-- dot-dot takes the last one away where there is one to take.
unfoldable pub go_up : Bool → List FilePath → List FilePath
go_up absolute [] = if absolute then [] else dotdot ∷ []
go_up absolute (n ∷ ns) = if is_dotdot n then dotdot ∷ n ∷ ns else ns

unfoldable pub go_to : Bool → FilePath → List FilePath → List FilePath
go_to absolute n ns =
    if is_empty n || is_dot n then ns else if is_dotdot n then go_up absolute ns else n ∷ ns

unfoldable pub normal_names : Bool → List FilePath → List FilePath → List FilePath
normal_names absolute [] ns = ns
normal_names absolute (p ∷ ps) ns = normal_names absolute ps (go_to absolute p ns)

-- The text of names that are listed from the last to the first, before `out`.
unfoldable pub text_of : List FilePath → FilePath → FilePath
text_of [] out = out
text_of (n ∷ []) out = n ++ out
text_of (n ∷ m ∷ ns) out = text_of (m ∷ ns) (slash ∷ (n ++ out))

-- Whether the last text between the slashes names a directory.
unfoldable pub ends_in_directory : List FilePath → Bool
ends_in_directory [] = false
ends_in_directory (p ∷ []) = is_empty p || (is_dot p || is_dotdot p)
ends_in_directory (p ∷ q ∷ ps) = ends_in_directory (q ∷ ps)

unfoldable pub written_normal : Bool → Bool → List FilePath → FilePath
written_normal absolute directory [] = if absolute then slash ∷ [] else dot_char ∷ []
written_normal absolute directory (n ∷ ns) =
    (if absolute then slash ∷ [] else [])
    ++ text_of (n ∷ ns) (if directory && not (is_dotdot n) then slash ∷ [] else [])

unfoldable pub lexically_normal : FilePath → FilePath
lexically_normal [] = []
lexically_normal (c ∷ s) =
    let absolute = is_slash c in
    written_normal absolute (ends_in_directory (parts (c ∷ s)))
      (normal_names absolute (parts (c ∷ s)) [])

-- The loop of `pop_back`, which leaves the first character.
unfoldable pub drop_slashes : FilePath → FilePath
drop_slashes [] = []
drop_slashes (c ∷ s) =
    let rest = drop_slashes s in if is_empty rest && is_slash c then [] else c ∷ rest

unfoldable pub drop_last_slashes : FilePath → FilePath
drop_last_slashes [] = []
drop_last_slashes (c ∷ s) = c ∷ drop_slashes s

unfoldable pub capio_normal_path : FilePath → FilePath
capio_normal_path p = drop_last_slashes (lexically_normal p)

-- What is left of two lists of elements after the first that differ.
unfoldable pub mismatch : List FilePath → List FilePath → List FilePath × List FilePath
mismatch (a ∷ more) (b ∷ bs) =
    let rest = mismatch more bs in if equal_texts a b then rest else (a ∷ more, b ∷ bs)
mismatch more bs = (more, bs)

unfoldable pub downs : List FilePath → ℕ
downs [] = 0
downs (b ∷ bs) = let n = downs bs in if is_empty b || (is_dot b || is_dotdot b) then n else suc n

unfoldable pub ups : List FilePath → ℕ
ups [] = 0
ups (b ∷ bs) = let n = ups bs in if is_dotdot b then suc n else n

abbrev pub first_is_empty : List FilePath → Bool
first_is_empty [] = true
first_is_empty (a ∷ rest) = is_empty a

unfoldable pub append_all : FilePath → List FilePath → FilePath
append_all p [] = p
append_all p (q ∷ qs) = append_all (join_path p q) qs

unfoldable pub dotdots : ℕ → List FilePath
dotdots zero = []
dotdots (suc n) = dotdot ∷ dotdots n

unfoldable pub relative_elements : List FilePath → List FilePath → FilePath
relative_elements [] [] = dot_char ∷ []
relative_elements xs bs =
    if ltb (downs bs) (ups bs)
    then []
    else if nat_beq (downs bs) (ups bs) && first_is_empty xs
    then dot_char ∷ []
    else append_all [] (dotdots (downs bs - ups bs) ++ xs)

-- path.lexically_relative(base)
unfoldable pub lexically_relative : FilePath → FilePath → FilePath
lexically_relative path base =
    let (xs, bs) = mismatch (elements path) (elements base) in
    if is_absolute path && not (is_absolute base) || not (is_absolute path) && is_absolute base
    then []
    else relative_elements xs bs

unfoldable pub is_prefix : FilePath → FilePath → Bool
is_prefix path_1 path_2 =
    let relpath = lexically_relative path_2 path_1 in
    not (is_empty relpath) && not (starts_with dotdot relpath)

-- `compare(...) == 0`
unfoldable pub equal_paths : FilePath → FilePath → Bool
equal_paths p q = equal_elements (elements p) (elements q)
  where
    equal_elements : List FilePath → List FilePath → Bool
    equal_elements [] [] = true
    equal_elements (a ∷ xs) (b ∷ ys) = equal_texts a b && equal_elements xs ys
    equal_elements _ _ = false

abbrev pub proc_prefix : FilePath
proc_prefix = "/" ∷ "p" ∷ "r" ∷ "o" ∷ "c" ∷ "/" ∷ []

abbrev pub sys_prefix : FilePath
sys_prefix = "/" ∷ "s" ∷ "y" ∷ "s" ∷ "/" ∷ []

unfoldable pub is_forbidden_path : FilePath → Bool
is_forbidden_path path = starts_with proc_prefix path || starts_with sys_prefix path
