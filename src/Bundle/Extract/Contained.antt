-- ===== src/Bundle/Extract/Contained.antt =====
-- Nothing of a tarball is written outside of the directory that it is unpacked into.
use ctf_koth_evals_template.Prelude.{ℕ, ◌≡◌, refl, List, [], ◌∷◌, ◌++◌, All, Bool-cases, inl, inr}
use ctf_koth_evals_template.Server.Request.{decoded, malformed}
use ctf_koth_evals_template.Worker.Execute.{Done}
use ctf_koth_evals_template.Bundle.Path.{Part, is_rooted, resolve, render, clean, join, is_unsafe}
use ctf_koth_evals_template.Bundle.Path.Inside.{IsName, join-clean}
use ctf_koth_evals_template.Bundle.Extract.{
  FilePath, path_eq, Node, Tree, Kind, directory, regular, other, Header, Member, member,
  unreadable, put_folder, put_file, permissions, write_kind, write_entry, and_then, unpack,
}

-- The path is the root followed by names.
abbrev pub IsBelow : FilePath → FilePath → Type 0
IsBelow root path =
    (ps : List Part) × All IsName ps × (path ≡ render (is_rooted root) (resolve root ++ ps))

abbrev pub AllBelow : FilePath → Tree → Type 0
AllBelow root = All (λ (p : FilePath × Node). IsBelow root p.0)

put_folder-All :
    (root path : FilePath) (mode : ℕ) (tree : Tree)
    → IsBelow root path
    → AllBelow root tree
    → AllBelow root (put_folder path mode tree)
unfolding put_folder
put_folder-All root path mode [] b h = (b, tt)
put_folder-All root path mode ((p, node) ∷ rest) b h = elim (Bool-cases (path_eq p path)) [
  | inl e ↦ rw e h
  | inr e ↦ rw e (h.0, put_folder-All root path mode rest b h.1)
]

put_file-All :
    (root path : FilePath) (mode : ℕ) (bytes : List ℕ) (tree : Tree)
    → IsBelow root path
    → AllBelow root tree
    → AllBelow root (put_file path mode bytes tree)
unfolding put_file
put_file-All root path mode bytes [] b h = (b, tt)
put_file-All root path mode bytes ((p, node) ∷ rest) b h = elim (Bool-cases (path_eq p path)) [
  | inl e ↦ rw e (h.0, h.1)
  | inr e ↦ rw e (h.0, put_file-All root path mode bytes rest b h.1)
]

write_kind-All :
    (root target : FilePath) (h : Header) (kind : Kind) (tree : Tree) (does : Done)
    (calls : FilePath → Done)
    → calls target ≡ does
    → IsBelow root target
    → AllBelow root tree
    → AllBelow root (write_kind calls target h kind tree).0
unfolding write_kind
write_kind-All root target h directory tree (malformed e) calls c b k = rw c k
write_kind-All root target h directory tree (decoded u) calls c b k =
    rw c (put_folder-All root target (permissions h.mode) tree b k)
write_kind-All root target h regular tree (malformed e) calls c b k = rw c k
write_kind-All root target h regular tree (decoded u) calls c b k =
    rw c (put_file-All root target (permissions h.mode) h.body tree b k)
write_kind-All root target h other tree does calls c b k = k

module _ (c : ℕ) (cs : List ℕ) (calls : FilePath → Done) where
  write_entry-All :
      (h : Header) (tree : Tree)
      → AllBelow (c ∷ cs) tree
      → AllBelow (c ∷ cs) (write_entry calls (c ∷ cs) h tree).0
  unfolding write_entry
  write_entry-All h tree k = elim (Bool-cases (is_unsafe (clean h.name))) [
    | inl e ↦ rw e k
    | inr e ↦
        let inside = join-clean c cs h.name e in
        let target = join (c ∷ cs) (clean h.name) in
        rw e (
          write_kind-All (c ∷ cs) target h h.kind tree (calls target) calls refl
            (resolve h.name, inside.0, inside.1) k)
  ]

  unpack_from :
      (members : List Member) (tree : Tree)
      → AllBelow (c ∷ cs) tree
      → AllBelow (c ∷ cs) (unpack calls (c ∷ cs) members tree).0
  unfolding unpack
  unpack_from [] tree k = k
  unpack_from (unreadable e ∷ members) tree k = k
  unpack_from (member h ∷ members) tree k =
      later (unpack_from members) (write_entry calls (c ∷ cs) h tree) (write_entry-All h tree k)
    where
      later :
          ((t : Tree) → AllBelow (c ∷ cs) t → AllBelow (c ∷ cs) (unpack calls (c ∷ cs) members t).0)
          → (o : Tree × Done) → AllBelow (c ∷ cs) o.0
          → AllBelow (c ∷ cs) (and_then o (unpack calls (c ∷ cs) members)).0
      later rest (t, malformed e) h = h
      later rest (t, decoded u) h = rest t h

  -- Every file and directory that Extract writes, of whatever tarball and however its calls end,
  -- has the path of the directory that it unpacks into, followed by names, none of which is `..`.
  pub unpack_stays_below :
      (members : List Member) → AllBelow (c ∷ cs) (unpack calls (c ∷ cs) members []).0
  unpack_stays_below members = unpack_from members [] tt
