-- ===== src/Tests/Router.antt =====
-- Inputs for the theorems on repository forms and keys.
use buildkit_operator.Base.{
  ◌≡◌, refl, pos, [], replicate, Bytes, text, bytes_eq, cut_suffix, to_lower, trim_space,
  trim_prefix, trim_suffix,
}
use buildkit_operator.Router.{
  normalize_repo, normalize_name, normalize_target, normalize_arch, project_seed, project_key,
  fork_key, clone_key, collapse_slashes, has_double_slash, halve_slashes, is_all_digits, index_byte,
  tidy_path, strip_port, strip_user, strip_schemes, colons_to_slashes,
}
use buildkit_operator.Router.Urls.Forms.{IsRepo, scp, ssh_port, dot_git, slash}
use buildkit_operator.Router.Urls.Identity.{project_key-render}
use buildkit_operator.Router.Keys.Families.{AreApart, keys-AreApart}
use buildkit_operator.Router.Keys.Seed.{identity, IsSeparable, project_seed_injective}

normalize_repo_run :
    normalize_repo (text " HTTPS://git@GitHub.com:443//SocialGouv/x.git/ ")
    ≡ text "github.com/socialgouv/x"
unfolding normalize_repo tidy_path strip_port strip_user strip_schemes trim_space to_lower
    trim_prefix trim_suffix cut_suffix index_byte is_all_digits colons_to_slashes collapse_slashes
    has_double_slash halve_slashes
normalize_repo_run = refl

abbrev host : Bytes
host = text "github.com"

abbrev path : Bytes
path = text "socialgouv/x"

github-IsRepo : IsRepo host path
unfolding has_double_slash cut_suffix bytes_eq
github-IsRepo = record {
  host_bytes = refl;
  path_bytes = refl;
  no_run = refl;
  no_slash = refl;
  no_git = refl;
}

abbrev zero_digest : Bytes → Bytes
zero_digest s = replicate 32 0

project_key-render_example :
    project_key zero_digest (text "git@github.com:socialgouv/x.git") [] [] (text "amd64")
    ≡ project_key zero_digest (text "ssh://git@github.com:22/socialgouv/x/") [] [] (text "amd64")
unfolding is_all_digits index_byte
project_key-render_example =
    project_key-render zero_digest host path [] [] (text "amd64") scp (ssh_port (text "22")) dot_git
      slash github-IsRepo refl refl

abbrev one : Bytes
one = text "github.com/a/b"

one-IsSeparable : IsSeparable (identity one (text "Api") [] (text "x86_64"))
unfolding normalize_repo normalize_name normalize_target normalize_arch tidy_path strip_port
    strip_user strip_schemes trim_space to_lower trim_prefix trim_suffix cut_suffix index_byte
    is_all_digits colons_to_slashes collapse_slashes has_double_slash halve_slashes
one-IsSeparable = record { in_repo = refl; in_name = refl; in_target = refl; in_arch = refl }

two-IsSeparable :
    IsSeparable
      (identity (text "https://github.com/a/b") (text "api ") (text "default") (text "amd64"))
unfolding normalize_repo normalize_name normalize_target normalize_arch tidy_path strip_port
    strip_user strip_schemes trim_space to_lower trim_prefix trim_suffix cut_suffix index_byte
    is_all_digits colons_to_slashes collapse_slashes has_double_slash halve_slashes
two-IsSeparable = record { in_repo = refl; in_name = refl; in_target = refl; in_arch = refl }

same_seed :
    project_seed one (text "Api") [] (text "x86_64")
    ≡ project_seed (text "https://github.com/a/b") (text "api ") (text "default") (text "amd64")
unfolding project_seed normalize_repo normalize_name normalize_target normalize_arch tidy_path
    strip_port strip_user strip_schemes trim_space to_lower trim_prefix trim_suffix cut_suffix
    index_byte is_all_digits colons_to_slashes collapse_slashes has_double_slash halve_slashes
same_seed = refl

project_seed_injective_example :
    identity one (text "Api") [] (text "x86_64")
    ≡ identity (text "https://github.com/a/b") (text "api ") (text "default") (text "amd64")
project_seed_injective_example =
    project_seed_injective one (text "Api") [] (text "x86_64") (text "https://github.com/a/b")
      (text "api ") (text "default") (text "amd64") one-IsSeparable two-IsSeparable same_seed

keys-AreApart_example :
    AreApart
      (project_key zero_digest one [] [] (text "amd64"))
      (fork_key (text "p1"))
      (clone_key (text "p1") (pos 2))
keys-AreApart_example =
    keys-AreApart zero_digest one [] [] (text "amd64") (text "p1") (text "p1") (pos 2)
