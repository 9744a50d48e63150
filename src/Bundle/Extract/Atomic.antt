-- ===== src/Bundle/Extract/Atomic.antt =====
-- Extract leaves a bundle whole or not at all.
use ctf_koth_evals_template.Prelude.{
  String, ◌≡◌, refl, sym, ap, ◌∙◌, true, false, ◌⊎◌, inl, inr, Option, none, some, List, [], ◌∷◌,
  ◌++◌, Bool-cases, Option-cases, arith, length, length-append,
}
use ctf_koth_evals_template.Go.Text.{codes}
use ctf_koth_evals_template.Server.Request.{decoded, malformed}
use ctf_koth_evals_template.Worker.Execute.{Done}
use ctf_koth_evals_template.Worker.Execute.Branches.{decoded_cases}
use ctf_koth_evals_template.Bundle.Extract.{
  FilePath, path_eq, Tree, Member, unpack, Disk, find_dir, remove_dir, place_dir, Outside, tmp_name,
  cleanup, arrive, rename_onto, lost_race, settle, finish, extract_missing, extract,
}

path_eq_sound : (a b : FilePath) → path_eq a b ≡ true → a ≡ b
path_eq_sound [] [] e = refl
path_eq_sound [] (y ∷ b) e = absurd (cc)
path_eq_sound (x ∷ a) [] e = absurd (cc)
path_eq_sound (x ∷ a) (y ∷ b) e =
    let same : x ≡ y = ground arith in
    let rest = path_eq_sound a b (ground arith) in ap (λ z. z ∷ a) same ∙ ap (λ l. y ∷ l) rest

path_eq_refl : (a : FilePath) → path_eq a a ≡ true
path_eq_refl [] = refl
path_eq_refl (x ∷ a) = ground (arith, path_eq_refl a)

tmp_other : (dest suffix : FilePath) → path_eq (tmp_name dest suffix) dest ≡ false
tmp_other dest suffix = elim (Bool-cases (path_eq (tmp_name dest suffix) dest)) [
  | inl e ↦
      let same = ap length (path_eq_sound (tmp_name dest suffix) dest e) in
      absurd (omega (arith, length-append dest (codes ".tmp." ++ suffix)))
  | inr e ↦ e
]

find-remove :
    (name : FilePath) (n : FilePath) (disk : Disk)
    → path_eq n name ≡ false
    → find_dir name (remove_dir n disk) ≡ find_dir name disk
find-remove name n [] e = refl
find-remove name n ((m, tree) ∷ rest) e = elim (Bool-cases (path_eq m n)) [
  | inl f ↦
      let same = path_eq_sound m n f in
      let apart : path_eq m name ≡ false = ap (λ x. path_eq x name) same ∙ e in
      rw (f, apart) (find-remove name n rest e)
  | inr f ↦ elim (Bool-cases (path_eq m name)) [
    | inl g ↦ rw (f, g) refl
    | inr g ↦ rw (f, g) (find-remove name n rest e)
  ]
]

find-place :
    (name n : FilePath) (tree : Tree) (disk : Disk)
    → path_eq n name ≡ false
    → find_dir name (place_dir n tree disk) ≡ find_dir name disk
find-place name n tree disk e = rw e (find-remove name n disk e)

find_placed :
    (name : FilePath) (tree : Tree) (disk : Disk)
    → find_dir name (place_dir name tree disk) ≡ some tree
find_placed name tree disk = rw (path_eq_refl name) refl

find-arrive :
    (o : Option Tree) (dest : FilePath) (disk : Disk)
    → find_dir dest (arrive o dest disk) ≡ (elim o [ none ↦ find_dir dest disk | some t ↦ some t ])
find-arrive none dest disk = refl
find-arrive (some t) dest disk = find_placed dest t disk

-- A tree that was there before, that another worker put there, or that all of the tarball unpacks to.
abbrev pub IsWhole : Outside → List Member → FilePath → Disk → Tree → Type 0
IsWhole o members dest disk tree =
    (find_dir dest disk ≡ some tree)
    ⊎ ((o.rival ≡ some tree)
        ⊎ ((suffix : FilePath) × (o.suffix ≡ decoded suffix)
            × (unpack o.calls (tmp_name dest suffix) members [] ≡ (tree, decoded tt))))

abbrev pub Ending : Outside → List Member → FilePath → Disk → Done × Disk → Type 0
Ending o members dest disk out =
    ((out.0 ≡ decoded tt)
      × ((tree : Tree) × (find_dir dest out.1 ≡ some tree) × IsWhole o members dest disk tree))
    ⊎ ((e : String) × (out.0 ≡ malformed e)
        × ((find_dir dest out.1 ≡ find_dir dest disk) ⊎ (find_dir dest out.1 ≡ o.rival)))

pub record Extracted (o : Outside) (members : List Member) (dest : FilePath) (disk : Disk)
    (out : Done × Disk) : Type 0 where
  pub holds : Ending o members dest disk out

module _ (o : Outside) (members : List Member) (dest : FilePath) (disk : Disk)
    (missing : find_dir dest disk ≡ none) (suffix : FilePath) where
  abbrev tmp : FilePath
  tmp = tmp_name dest suffix

  cleanup-find : (d : Disk) → find_dir dest (cleanup o tmp d) ≡ find_dir dest d
  cleanup-find d = elim (Bool-cases o.removes) [
    | inl e ↦ simp e (find-remove dest tmp d (tmp_other dest suffix))
    | inr e ↦ simp e
  ]

  -- What the failing rename comes to, given what is in the place.
  lost :
      (d : Disk) (found : Option Tree) (again : Done) (e : String)
      → find_dir dest d ≡ found
      → (found ≡ none) ⊎ (found ≡ o.rival)
      → Ending o members dest disk (lost_race again found e, cleanup o tmp d)
  lost d found (malformed x) e f (inl n) = inr (e, refl, inl (cleanup-find d ∙ f ∙ n ∙ sym missing))
  lost d found (malformed x) e f (inr r) = inr (e, refl, inr (cleanup-find d ∙ f ∙ r))
  lost d none (decoded u) e f was = inr (e, refl, inl (cleanup-find d ∙ f ∙ sym missing))
  lost d (some tree) (decoded u) e f (inl n) = absurd (cc)
  lost d (some tree) (decoded u) e f (inr r) =
      inl (refl, (tree, cleanup-find d ∙ f, inr (inl (sym r))))

  settled :
      (tree : Tree) (d : Disk)
      → (find_dir dest d ≡ none) ⊎ (find_dir dest d ≡ o.rival)
      → o.suffix ≡ decoded suffix
      → unpack o.calls tmp members [] ≡ (tree, decoded tt)
      → Extracted o members dest disk (settle o dest tmp tree d)
  settled tree d was s full = elim (decoded_cases (rename_onto (find_dir dest d) o.renamed)) [
    | inl (e, r) ↦ simp r (record { holds = lost d (find_dir dest d) o.stat_again e refl was })
    | inr (u, r) ↦
        let placed = find_placed dest tree (remove_dir tmp d) in
        simp r (record { holds = inl (refl, (tree, placed, inr (inr (suffix, s, full)))) })
  ]

  arrived :
      (rival : Option Tree) (tree : Tree)
      → (find_dir dest (arrive rival dest (place_dir tmp tree disk)) ≡ none)
        ⊎ (find_dir dest (arrive rival dest (place_dir tmp tree disk)) ≡ rival)
  arrived none tree = inl (find-place dest tmp tree disk (tmp_other dest suffix) ∙ missing)
  arrived (some t) tree = inr (find_placed dest t (place_dir tmp tree disk))

  finished :
      (out : Tree × Done)
      → o.suffix ≡ decoded suffix
      → unpack o.calls tmp members [] ≡ out
      → Extracted o members dest disk (finish o dest tmp out disk)
  finished (tree, malformed e) s u =
      let kept =
        cleanup-find (place_dir tmp tree disk)
        ∙ find-place dest tmp tree disk (tmp_other dest suffix) in
      record { holds = inr (e, refl, inl kept) }
  finished (tree, decoded v) s u =
      settled tree (arrive o.rival dest (place_dir tmp tree disk)) (arrived o.rival tree) s u

module _ (o : Outside) (members : List Member) (dest : FilePath) (disk : Disk) where
  missing-Extracted :
      find_dir dest disk ≡ none
      → Extracted o members dest disk (extract_missing o members dest disk)
  missing-Extracted missing = elim (decoded_cases o.parent) [
    | inl (e, p) ↦ simp p (record { holds = inr (e, refl, inl refl) })
    | inr (u, p) ↦ elim (decoded_cases o.suffix) [
      | inl (e, s) ↦ simp (p, s) (record { holds = inr (e, refl, inl refl) })
      | inr (suffix, s) ↦ elim (decoded_cases o.made) [
        | inl (e, m) ↦ simp (p, s, m) (record { holds = inr (e, refl, inl refl) })
        | inr (v, m) ↦
            let done =
              finished o members dest disk missing suffix
                (unpack o.calls (tmp_name dest suffix) members []) s refl in
            simp (p, s, m) done
      ]
    ]
  ]

  -- However the calls of the system end, and whatever another worker does meanwhile: where Extract
  -- gives no error the directory is there, and is the one that was there before, the one that
  -- another worker put there, or all that the tarball unpacks to; where it gives an error the
  -- directory is as it was, or another worker's. It is never a part of the tarball.
  pub extract-Extracted : Extracted o members dest disk (extract o members dest disk)
  unfolding extract
  extract-Extracted = elim (decoded_cases o.stat) [
    | inl (e, t) ↦ simp t (record { holds = inr (e, refl, inl refl) })
    | inr (u, t) ↦ elim (Option-cases (find_dir dest disk)) [
      | inl n ↦ simp (t, n) (missing-Extracted n)
      | inr (tree, f) ↦ simp (t, f) (record { holds = inl (refl, (tree, f, inl f)) })
    ]
  ]
