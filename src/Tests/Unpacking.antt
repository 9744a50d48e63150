-- ===== src/Tests/Unpacking.antt =====
-- A tarball with a directory, a file and a name that leads out of the bundle.
use ctf_koth_evals_template.Prelude.{◌≡◌, refl, true, none, List, [], ◌∷◌}
use ctf_koth_evals_template.Go.Text.{codes, split}
use ctf_koth_evals_template.Server.Request.{decoded, malformed}
use ctf_koth_evals_template.Bundle.Path.{clean, is_unsafe, resolve, push_all, join_parts, join}
use ctf_koth_evals_template.Bundle.Extract.{
  Header, directory, regular, Member, member, Outside, Disk, put_folder, put_file, Node, file,
  write_kind, write_entry, unpack, extract,
}
use ctf_koth_evals_template.Bundle.Extract.Contained.{AllBelow, unpack_stays_below}
use ctf_koth_evals_template.Bundle.Extract.Atomic.{Extracted, extract-Extracted}

abbrev folder_bin : Header
folder_bin = record {
  name = codes "bin/";
  kind = directory;
  mode = 493;
  body = [];
  copied = decoded tt;
}

abbrev program : Header
program = record {
  name = codes "bin/../bin/run";
  kind = regular;
  mode = 493;
  body = 7 ∷ [];
  copied = decoded tt;
}

abbrev outsider : Header
outsider = record {
  name = codes "bin/../../etc";
  kind = regular;
  mode = 493;
  body = [];
  copied = decoded tt;
}

abbrev members : List Member
members = member folder_bin ∷ member program ∷ member outsider ∷ []

unpacked : unpack (λ p. decoded tt) (codes "/c") members [] ≡ (
  (codes "/c/bin", Node.folder 493) ∷ (codes "/c/bin/run", file 493 (7 ∷ [])) ∷ [],
  malformed "unsafe tar path",
)
unfolding unpack write_entry write_kind clean resolve push_all split join_parts join put_folder
    put_file
unpacked = refl

unpack_stays_below_example :
    AllBelow (codes "/c") (unpack (λ p. decoded tt) (codes "/c") members []).0
unpack_stays_below_example = unpack_stays_below b'/' (codes "c") (λ p. decoded tt) members

-- Nothing fails, and no other worker is there.
abbrev calm : Outside
calm = record {
  stat = decoded tt;
  parent = decoded tt;
  suffix = decoded (codes "0");
  made = decoded tt;
  calls = λ p. decoded tt;
  rival = none;
  renamed = decoded tt;
  stat_again = decoded tt;
  removes = true;
}

abbrev no_disk : Disk
no_disk = []

extract-Extracted_example :
    Extracted calm members (codes "/c") no_disk (extract calm members (codes "/c") no_disk)
extract-Extracted_example = extract-Extracted calm members (codes "/c") no_disk

slips_out : is_unsafe (clean (codes "bin/../../etc")) ≡ true
unfolding clean resolve push_all split join_parts
slips_out = refl
