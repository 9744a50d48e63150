-- ===== src/Bundle/Extract.antt =====
-- writeEntry and Extract of internal/bundle/bundle.go, on a disk that maps the names of directories
-- to what is in them. How each call of the system ends is given; the umask is left out.
pub mod Contained
pub mod Atomic
use ctf_koth_evals_template.Prelude.{
  ℕ, ◌%◌, String, ◌<>◌, Bool, true, false, ◌&&◌, Option, none, some, List, [], ◌∷◌, ◌++◌, ◌==◌,
  if◌then◌else◌,
}
use ctf_koth_evals_template.Go.Text.{codes}
use ctf_koth_evals_template.Server.Request.{Decoded, decoded, malformed}
use ctf_koth_evals_template.Worker.Execute.{Done, or_give}
use ctf_koth_evals_template.Bundle.Path.{clean, join, is_unsafe}

abbrev pub FilePath : Type 0
FilePath = List ℕ

abbrev pub path_eq : FilePath → FilePath → Bool
path_eq [] [] = true
path_eq (a ∷ s) (b ∷ t) = a == b && path_eq s t
path_eq _ _ = false

-- A directory or a file, with its permissions. The directories that MkdirAll makes above a file are
-- not listed.
pub data Node : Type 0 where
  folder : ℕ → Node
  file : ℕ → List ℕ → Node

abbrev pub Tree : Type 0
Tree = List (FilePath × Node)

-- tar.Header, with the bytes that io.Copy wrote and how Copy and Close ended.
pub data Kind : Type 0 where
  directory regular other : Kind

pub record Header : Type 0 where
  pub name : FilePath
  pub kind : Kind
  pub mode : ℕ
  pub body : List ℕ
  pub copied : Done

-- What tar.Reader.Next gives, up to io.EOF.
pub data Member : Type 0 where
  member : Header → Member
  unreadable : String → Member

-- MkdirAll leaves what is there.
unfoldable pub put_folder : FilePath → ℕ → Tree → Tree
put_folder path mode [] = (path, folder mode) ∷ []
put_folder path mode ((p, node) ∷ rest) =
    if path_eq p path then (p, node) ∷ rest else (p, node) ∷ put_folder path mode rest

-- O_CREATE|O_TRUNC, and the bytes that io.Copy wrote: a file that is there keeps its permissions.
abbrev pub truncated : List ℕ → Node → Node
truncated bytes (folder mode) = folder mode
truncated bytes (file mode old) = file mode bytes

unfoldable pub put_file : FilePath → ℕ → List ℕ → Tree → Tree
put_file path mode bytes [] = (path, file mode bytes) ∷ []
put_file path mode bytes ((p, node) ∷ rest) =
    if path_eq p path
    then (p, truncated bytes node) ∷ rest
    else (p, node) ∷ put_file path mode bytes rest

-- `mode & fs.ModePerm`
abbrev pub permissions : ℕ → ℕ
permissions mode = mode % 512

-- `calls` is how the calls that make `target` end.
unfoldable pub write_kind : (FilePath → Done) → FilePath → Header → Kind → Tree → Tree × Done
unfolding put_folder put_file
write_kind calls target h directory tree =
    or_give (calls target) (λ e. (tree, malformed e))
      λ u. (put_folder target (permissions h.mode) tree, decoded tt)
write_kind calls target h regular tree =
    or_give (calls target) (λ e. (tree, malformed e))
      λ u. (put_file target (permissions h.mode) h.body tree, h.copied)
write_kind calls target h other tree = (tree, decoded tt)

unfoldable pub write_entry : (FilePath → Done) → FilePath → Header → Tree → Tree × Done
unfolding clean join write_kind
write_entry calls root h tree =
    if is_unsafe (clean h.name)
    then (tree, malformed "unsafe tar path")
    else write_kind calls (join root (clean h.name)) h h.kind tree

abbrev pub and_then : Tree × Done → (Tree → Tree × Done) → Tree × Done
and_then (tree, malformed e) next = (tree, malformed e)
and_then (tree, decoded u) next = next tree

-- The loop of Extract: up to the first error, with what is in the directory then.
unfoldable pub unpack : (FilePath → Done) → FilePath → List Member → Tree → Tree × Done
unfolding write_entry
unpack calls root [] tree = (tree, decoded tt)
unpack calls root (unreadable e ∷ members) tree = (tree, malformed ("read tar: " <> e))
unpack calls root (member h ∷ members) tree =
    and_then (write_entry calls root h tree) (unpack calls root members)

abbrev pub Disk : Type 0
Disk = List (FilePath × Tree)

abbrev pub find_dir : FilePath → Disk → Option Tree
find_dir name [] = none
find_dir name ((n, tree) ∷ rest) = if path_eq n name then some tree else find_dir name rest

abbrev pub remove_dir : FilePath → Disk → Disk
remove_dir name [] = []
remove_dir name ((n, tree) ∷ rest) =
    if path_eq n name then remove_dir name rest else (n, tree) ∷ remove_dir name rest

abbrev pub place_dir : FilePath → Tree → Disk → Disk
place_dir name tree disk = (name, tree) ∷ remove_dir name disk

-- How the calls end that are not about an entry. `rival` is what another worker has put in the place
-- meanwhile, `removes` whether RemoveAll does what it should.
pub record Outside : Type 0 where
  pub stat : Done
  pub parent : Done
  pub suffix : Decoded (List ℕ)
  pub made : Done
  pub calls : FilePath → Done
  pub rival : Option Tree
  pub renamed : Done
  pub stat_again : Done
  pub removes : Bool

abbrev pub tmp_name : FilePath → List ℕ → FilePath
tmp_name dest suffix = dest ++ (codes ".tmp." ++ suffix)

abbrev pub cleanup : Outside → FilePath → Disk → Disk
cleanup o tmp disk = if o.removes then remove_dir tmp disk else disk

abbrev pub arrive : Option Tree → FilePath → Disk → Disk
arrive none dest disk = disk
arrive (some tree) dest disk = place_dir dest tree disk

-- os.Rename of a directory: onto nothing or an empty directory.
abbrev pub rename_onto : Option Tree → Done → Done
rename_onto none does = does
rename_onto (some []) does = does
rename_onto (some (x ∷ xs)) does = malformed "directory not empty"

-- The second stat: no error means that another worker was faster.
abbrev pub lost_race : Done → Option Tree → String → Done
lost_race (malformed x) found e = malformed e
lost_race (decoded u) none e = malformed e
lost_race (decoded u) (some tree) e = decoded tt

abbrev pub settle : Outside → FilePath → FilePath → Tree → Disk → Done × Disk
settle o dest tmp tree disk =
    or_give (rename_onto (find_dir dest disk) o.renamed)
      (λ e. (lost_race o.stat_again (find_dir dest disk) e, cleanup o tmp disk))
      λ u. (decoded tt, place_dir dest tree (remove_dir tmp disk))

abbrev pub finish : Outside → FilePath → FilePath → Tree × Done → Disk → Done × Disk
finish o dest tmp (tree, malformed e) disk = (malformed e, cleanup o tmp (place_dir tmp tree disk))
finish o dest tmp (tree, decoded u) disk =
    settle o dest tmp tree (arrive o.rival dest (place_dir tmp tree disk))

abbrev pub extract_missing : Outside → List Member → FilePath → Disk → Done × Disk
extract_missing o members dest disk =
    or_give o.parent (λ e. (malformed e, disk))
      λ u.
        or_give o.suffix (λ e. (malformed e, disk))
          λ suffix.
            or_give o.made (λ e. (malformed e, disk))
              λ u.
                finish o dest (tmp_name dest suffix)
                  (unpack o.calls (tmp_name dest suffix) members []) disk

-- `stat` fails other than by a missing file; otherwise the disk says whether the directory is there.
unfoldable pub extract : Outside → List Member → FilePath → Disk → Done × Disk
unfolding unpack
extract o members dest disk =
    or_give o.stat (λ e. (malformed e, disk))
      λ u. elim (find_dir dest disk) [
        | some tree ↦ (decoded tt, disk)
        | none ↦ extract_missing o members dest disk
      ]
