-- ===== src/Router/Urls/Forms.antt =====
-- The forms in which a repository is written, and the last stages of `NormalizeRepo` on them.
use buildkit_operator.Base.{
  ◌≡◌, refl, sym, ◌∙◌, true, false, none, [], ◌∷◌, ◌++◌, length, Bytes, text, bytes_eq, cut_suffix,
  cut_suffix-append, cut_suffix_miss, trim_suffix, append-nil, append_assoc, arith,
}
use buildkit_operator.Router.{is_all_digits, has_double_slash, collapse_slashes, tidy_path}
use buildkit_operator.Router.Slashes.{collapse_slashes-squeeze, squeeze_id}
use buildkit_operator.Router.Urls.Bytewise.{
  all_bytes, all_bytes-append, is_path_byte, is_host_byte, lacks, colons_to_slashes_id,
}
use buildkit_operator.Router.Urls.Stages.{first_segment}

abbrev pub canonical : Bytes → Bytes → Bytes
canonical host path = host ++ (b'/' ∷ path)

-- A host and a path whose join is in normal form.
pub record IsRepo (host path : Bytes) : Type 0 where
  pub host_bytes : all_bytes is_host_byte host ≡ true
  pub path_bytes : all_bytes is_path_byte path ≡ true
  pub no_run : has_double_slash (canonical host path) ≡ false
  pub no_slash : cut_suffix (canonical host path) (text "/") ≡ none
  pub no_git : cut_suffix (canonical host path) (text ".git") ≡ none

-- What may stand behind the path.
pub data Ending : Type 0 where
  plain slash dot_git dot_git_slash : Ending

abbrev pub ending : Ending → Bytes
ending plain = []
ending slash = text "/"
ending dot_git = text ".git"
ending dot_git_slash = text ".git/"

-- How the repository is written; a port is given by its digits.
pub data Form : Type 0 where
  bare https http git ssh ssh_user scp : Form
  https_port ssh_port : Bytes → Form

abbrev pub render : Form → Bytes → Bytes → Bytes
render bare host path = canonical host path
render https host path = text "https://" ++ canonical host path
render http host path = text "http://" ++ canonical host path
render git host path = text "git://" ++ canonical host path
render ssh host path = text "ssh://" ++ canonical host path
render ssh_user host path = text "ssh://git@" ++ canonical host path
render scp host path = text "git@" ++ (host ++ (b':' ∷ path))
render (https_port port) host path = text "https://" ++ (host ++ (b':' ∷ (port ++ (b'/' ∷ path))))
render (ssh_port port) host path = text "ssh://git@" ++ (host ++ (b':' ∷ (port ++ (b'/' ∷ path))))

-- A port is a number, and the path behind the colon of an scp-like form must not look like one.
abbrev pub Reads : Form → Bytes → Type 0
Reads scp tail = is_all_digits (first_segment tail) ≡ false
Reads (https_port port) tail = is_all_digits port ≡ true
Reads (ssh_port port) tail = is_all_digits port ≡ true
Reads _ tail = Unit {0}

trim_suffix_hit : (s p : Bytes) → trim_suffix (s ++ p) p ≡ s
unfolding trim_suffix
trim_suffix_hit s p = rw (cut_suffix-append s p, trim_suffix)

trim_suffix_miss : (s p : Bytes) → cut_suffix s p ≡ none → trim_suffix s p ≡ s
unfolding trim_suffix
trim_suffix_miss s p h = rw (h, trim_suffix)

module _ (c : Bytes) (colonless : lacks b':' c ≡ true) (no_run : has_double_slash c ≡ false)
    (no_slash : cut_suffix c (text "/") ≡ none) (no_git : cut_suffix c (text ".git") ≡ none) where
  collapsed : collapse_slashes (length c) c ≡ c
  collapsed = (collapse_slashes-squeeze (length c) c (omega arith)).0 ∙ squeeze_id c no_run

  tidy_path_untailed : tidy_path c ≡ c
  unfolding tidy_path
  tidy_path_untailed =
      rw
        (
          colons_to_slashes_id c colonless,
          trim_suffix_miss c (text "/") no_slash,
          trim_suffix_miss c (text ".git") no_git,
          trim_suffix_miss c (text "/") no_slash,
        )
        collapsed

  pub tidy_path-ending : (e : Ending) → tidy_path (c ++ ending e) ≡ c
  unfolding tidy_path
  tidy_path-ending plain = rw (append-nil c) (tidy_path_untailed)
  tidy_path-ending slash =
      rw
        (
          colons_to_slashes_id (c ++ text "/") (all_bytes-append _ c (text "/") colonless refl),
          trim_suffix_hit c (text "/"),
          trim_suffix_miss c (text ".git") no_git,
          trim_suffix_miss c (text "/") no_slash,
        )
        collapsed
  tidy_path-ending dot_git =
      rw
        (
          colons_to_slashes_id (c ++ text ".git")
              (all_bytes-append _ c (text ".git") colonless refl),
          trim_suffix_miss (c ++ text ".git") (text "/")
              (cut_suffix_miss c (text ".git") (text "/") (omega arith) (unfold bytes_eq in refl)),
          trim_suffix_hit c (text ".git"),
          trim_suffix_miss c (text "/") no_slash,
        )
        collapsed
  tidy_path-ending dot_git_slash =
      rw
        (
          colons_to_slashes_id (c ++ text ".git/")
              (all_bytes-append _ c (text ".git/") colonless refl),
          sym (append_assoc c (text ".git") (text "/")),
          trim_suffix_hit (c ++ text ".git") (text "/"),
          trim_suffix_hit c (text ".git"),
          trim_suffix_miss c (text "/") no_slash,
        )
        collapsed
