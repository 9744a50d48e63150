-- ===== src/Bundle/Path.antt =====
-- filepath.Clean and filepath.Join on Unix, over the bytes of a path, as writeEntry of
-- internal/bundle/bundle.go uses them.
pub mod Parts
pub mod Inside
use mathlib.Core.List.{reverse}
use ctf_koth_evals_template.Prelude.{
  ℕ, Bool, true, false, ◌&&◌, ◌||◌, List, [], ◌∷◌, ◌++◌, ◌==◌, if◌then◌else◌,
}
use ctf_koth_evals_template.Go.Text.{split}

abbrev pub Part : Type 0
Part = List ℕ

-- ".."
abbrev pub dots : Part
dots = b'.' ∷ b'.' ∷ []

abbrev pub is_dots : Part → Bool
is_dots (a ∷ b ∷ []) = a == b'.' && b == b'.'
is_dots _ = false

-- "" and "."
abbrev pub is_void : Part → Bool
is_void [] = true
is_void (a ∷ []) = a == b'.'
is_void _ = false

-- A ".." takes the last part back, stays in front of others of its kind, and is dropped at the root.
abbrev pub go_up : Bool → List Part → List Part
go_up rooted [] = if rooted then [] else dots ∷ []
go_up rooted (q ∷ qs) = if is_dots q then dots ∷ q ∷ qs else qs

-- The parts so far are kept in reverse.
abbrev pub push : Bool → Part → List Part → List Part
push rooted p stack =
    if is_void p then stack else if is_dots p then go_up rooted stack else p ∷ stack

unfoldable pub push_all : Bool → List Part → List Part → List Part
push_all rooted stack [] = stack
push_all rooted stack (p ∷ ps) = push_all rooted (push rooted p stack) ps

abbrev pub is_rooted : List ℕ → Bool
is_rooted [] = false
is_rooted (c ∷ cs) = c == b'/'

-- The parts that are left of a path.
unfoldable pub resolve : List ℕ → List Part
unfolding push_all split
resolve path = reverse (push_all (is_rooted path) [] (split b'/' path))

unfoldable pub join_parts : List Part → List ℕ
join_parts [] = []
join_parts (p ∷ []) = p
join_parts (p ∷ q ∷ ps) = p ++ (b'/' ∷ join_parts (q ∷ ps))

abbrev pub or_dot : List ℕ → List ℕ
or_dot [] = b'.' ∷ []
or_dot (c ∷ cs) = c ∷ cs

abbrev pub render : Bool → List Part → List ℕ
render rooted ps = or_dot (if rooted then b'/' ∷ join_parts ps else join_parts ps)

-- filepath.Clean
unfoldable pub clean : List ℕ → List ℕ
unfolding resolve join_parts
clean path = render (is_rooted path) (resolve path)

-- filepath.Join(root, rel), of two that are not empty.
unfoldable pub join : List ℕ → List ℕ → List ℕ
unfolding clean
join root rel = clean (root ++ (b'/' ∷ rel))

-- strings.HasPrefix(clean, "..") || strings.HasPrefix(clean, "/")
abbrev pub starts_with_dots : List ℕ → Bool
starts_with_dots (a ∷ b ∷ cs) = a == b'.' && b == b'.'
starts_with_dots _ = false

abbrev pub is_unsafe : List ℕ → Bool
is_unsafe path = starts_with_dots path || is_rooted path
