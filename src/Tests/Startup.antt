-- ===== src/Tests/Startup.antt =====
-- The environment and the registration of a challenge.
use ctf_koth_evals_template.Prelude.{ℕ, String, ◌≡◌, refl, List, [], ◌∷◌, str_eq, if◌then◌else◌}
use ctf_koth_evals_template.Go.Int.{pos, is_positive}
use ctf_koth_evals_template.Go.Text.{codes, atoi}
use ctf_koth_evals_template.Go.Any.{Fields, end, field, text, get, as_text}
use ctf_koth_evals_template.Ent.Store.{create_challenge, only}
use ctf_koth_evals_template.Server.Request.{Decoded, decoded, malformed}
use ctf_koth_evals_template.Server.Action.{value, reliable, ◌>>=◌, pure, call, save}
use ctf_koth_evals_template.Commands.Config.{
  Outside, env, hostname_or_random, positive, duration, load,
}
use ctf_koth_evals_template.Commands.Config.Loading.{Loading}
use ctf_koth_evals_template.Commands.Dsn.{sqlite, has_prefix, resolve}
use ctf_koth_evals_template.Commands.Register.{registered, new_challenge, register_challenge}
use ctf_koth_evals_template.Commands.Register.Again.{again_of, register_challenge_twice}
use ctf_koth_evals_template.Tests.Fixtures.{world}

abbrev outside : Outside
outside = record {
  getenv = λ key. if str_eq key "CTF_EVALS_CONCURRENCY" then "0" else "";
  hostname = decoded "box";
  pid = "7";
  parse_duration = λ t. decoded (pos 1);
}

no_slots : load outside ≡ malformed "CTF_EVALS_CONCURRENCY must be a positive int"
unfolding load env hostname_or_random positive duration atoi is_positive
no_slots = refl

abbrev manifest : Decoded Fields
manifest = decoded (field "name" (text "toy") end)

abbrev packed : Decoded (List ℕ × String)
packed = decoded (7 ∷ [], "cd34")

first_time :
    (register_challenge manifest packed 60 world).0
    ≡ value (registered (new_challenge (field "name" (text "toy") end) (7 ∷ []) "cd34" 60 2))
unfolding register_challenge ◌>>=◌ pure call save create_challenge only get as_text
first_time = refl

register_challenge_twice_example :
    register_challenge manifest packed 90
      (reliable (register_challenge manifest packed 60 (reliable world)).1)
    ≡ (
      again_of (register_challenge manifest packed 60 (reliable world)).0,
      reliable (register_challenge manifest packed 60 (reliable world)).1,
    )
register_challenge_twice_example = register_challenge_twice manifest packed 60 90 world

sqlite_path :
    resolve (codes "sqlite://x.db")
    ≡ decoded (record { driver = "sqlite"; dialect = sqlite; conn = codes "x.db" })
unfolding resolve has_prefix
sqlite_path = refl
