-- ===== src/Router/Urls/Identity.antt =====
-- `NormalizeRepo` and `ProjectKey` on all forms of a repository.
use buildkit_operator.Base.{
  ℕ, ◌≡◌, ◌≢◌, refl, sym, ap, ◌∙◌, true, false, ◌==◌, [], ◌∷◌, ◌++◌, Bytes, text, append_assoc,
  arith,
}
use buildkit_operator.Router.{
  is_all_digits, strip_schemes, strip_user, strip_port, tidy_path, normalize_repo, project_seed,
  project_key,
}
use buildkit_operator.Router.Urls.Bytewise.{
  all_bytes, all_bytes-append, host-of_digits, is_plain, is_path_byte, plain-of_path, path-of_host,
  to_lower_plain, trim_space_plain, lacks, lacks_at, lacks_colon, colons_to_slashes_id,
  colons_to_slashes-append,
}
use buildkit_operator.Router.Urls.Stages.{
  IsBare, IsBare-no_colon, IsBare-port, IsBare-user, strip_schemes_bare, strip_user_none,
  strip_user_git, strip_port_none, strip_port_port, strip_port_path, digits_of, strip_https,
  strip_http, strip_git, strip_ssh,
}
use buildkit_operator.Router.Urls.Forms.{
  canonical, IsRepo, Ending, plain, slash, dot_git, dot_git_slash, ending, Form, bare, https, http,
  git, ssh, ssh_user, scp, https_port, ssh_port, render, Reads, tidy_path-ending,
}

ending_bytes : (e : Ending) → all_bytes is_path_byte (ending e) ≡ true
ending_bytes plain = refl
ending_bytes slash = refl
ending_bytes dot_git = refl
ending_bytes dot_git_slash = refl

normalize_repo_plain :
    (s t u : Bytes)
    → all_bytes is_plain s ≡ true
    → strip_user (strip_schemes s) ≡ t
    → strip_port t ≡ u
    → normalize_repo s ≡ tidy_path u
unfolding normalize_repo
normalize_repo_plain s t u h e f = rw (to_lower_plain s h, trim_space_plain s h, e, f)

tidy_path_colon :
    (host rest : Bytes)
    → lacks b':' host ≡ true
    → lacks b':' rest ≡ true
    → tidy_path (host ++ (b':' ∷ rest)) ≡ tidy_path (host ++ (b'/' ∷ rest))
unfolding tidy_path
tidy_path_colon host rest h k = rw (
  colons_to_slashes-append host rest h k,
  colons_to_slashes_id (host ++ (b'/' ∷ rest)) (all_bytes-append _ host (b'/' ∷ rest) h k),
)

digits_ne_nil : is_all_digits [] ≢ true
unfolding is_all_digits
digits_ne_nil h = ground arith

digit_ne_slash : (x : ℕ) (xs : Bytes) → is_all_digits (x ∷ xs) ≡ true → (x == b'/') ≡ false
unfolding is_all_digits
digit_ne_slash x xs h = ground arith

-- The texts of one repository, with an ending, stage by stage.
module _ (host path : Bytes) (repo : IsRepo host path) (e : Ending) where
  abbrev tail : Bytes
  tail = path ++ ending e

  abbrev whole : Bytes
  whole = canonical host path ++ ending e

  tail_bytes : all_bytes is_path_byte tail ≡ true
  tail_bytes = all_bytes-append _ path (ending e) repo.path_bytes (ending_bytes e)

  host_path_bytes : all_bytes is_path_byte host ≡ true
  host_path_bytes = path-of_host host repo.host_bytes

  whole_tail : whole ≡ host ++ (b'/' ∷ tail)
  whole_tail = append_assoc host (b'/' ∷ path) (ending e)

  whole_bytes : all_bytes is_path_byte whole ≡ true
  whole_bytes = rw whole_tail (all_bytes-append _ host (b'/' ∷ tail) host_path_bytes tail_bytes)

  whole_tidy : tidy_path whole ≡ canonical host path
  whole_tidy =
      tidy_path-ending (canonical host path)
        (lacks_colon (canonical host path)
          (all_bytes-append _ host (b'/' ∷ path) host_path_bytes repo.path_bytes))
        repo.no_run repo.no_slash repo.no_git e

  whole_IsBare : IsBare whole
  whole_IsBare = IsBare-no_colon whole (lacks_colon whole whole_bytes)

  whole_user : strip_user whole ≡ whole
  whole_user = strip_user_none whole (lacks_at whole whole_bytes)

  -- A form that the first stages bring down to the join of host and path.
  from_whole :
      (s : Bytes)
      → all_bytes is_plain s ≡ true
      → strip_user (strip_schemes s) ≡ whole
      → normalize_repo s ≡ canonical host path
  from_whole s h k =
      normalize_repo_plain s whole whole h k (strip_port_none whole (lacks_colon whole whole_bytes))
      ∙ whole_tidy

  behind : (p : Bytes) → all_bytes is_plain p ≡ true → all_bytes is_plain (p ++ whole) ≡ true
  behind p h = all_bytes-append _ p whole h (plain-of_path whole whole_bytes)

  normalize_scp :
      Reads scp tail → normalize_repo (text "git@" ++ (host ++ (b':' ∷ tail))) ≡ canonical host path
  normalize_scp r =
      normalize_repo_plain (text "git@" ++ (host ++ (b':' ∷ tail))) (host ++ (b':' ∷ tail))
        (host ++ (b':' ∷ tail))
        (all_bytes-append _ host (b':' ∷ tail) (plain-of_path host host_path_bytes)
          (plain-of_path tail tail_bytes))
        (rw (strip_schemes_bare _ (IsBare-user (host ++ (b':' ∷ tail)))) (strip_user_git _))
        (strip_port_path host tail (lacks_colon host host_path_bytes) r)
      ∙ tidy_path_colon host tail (lacks_colon host host_path_bytes) (lacks_colon tail tail_bytes)
      ∙ rw (sym whole_tail) whole_tidy

  abbrev ported : Bytes → Bytes
  ported port = host ++ (b':' ∷ (port ++ (b'/' ∷ tail)))

  ported_bytes :
      (port : Bytes)
      → is_all_digits port ≡ true
      → all_bytes is_path_byte (port ++ (b'/' ∷ tail)) ≡ true
  ported_bytes port d =
      all_bytes-append _ port (b'/' ∷ tail)
        (path-of_host port (host-of_digits port (digits_of port d))) tail_bytes

  ported_plain :
      (port : Bytes) → is_all_digits port ≡ true → all_bytes is_plain (ported port) ≡ true
  ported_plain port d =
      all_bytes-append _ host (b':' ∷ (port ++ (b'/' ∷ tail))) (plain-of_path host host_path_bytes)
        (plain-of_path (port ++ (b'/' ∷ tail)) (ported_bytes port d))

  ported_at : (port : Bytes) → is_all_digits port ≡ true → lacks b'@' (ported port) ≡ true
  ported_at port d =
      all_bytes-append _ host (b':' ∷ (port ++ (b'/' ∷ tail))) (lacks_at host host_path_bytes)
        (lacks_at (port ++ (b'/' ∷ tail)) (ported_bytes port d))

  ported-IsBare : (port : Bytes) → is_all_digits port ≡ true → IsBare (ported port)
  ported-IsBare [] d = absurd (digits_ne_nil d)
  ported-IsBare (x ∷ xs) d =
      IsBare-port host (xs ++ (b'/' ∷ tail)) x (lacks_colon host host_path_bytes)
        (digit_ne_slash x xs d)

  ported_tidy :
      (s port : Bytes)
      → is_all_digits port ≡ true
      → all_bytes is_plain s ≡ true
      → strip_user (strip_schemes s) ≡ ported port
      → normalize_repo s ≡ canonical host path
  ported_tidy s port d h k =
      normalize_repo_plain s (ported port) (host ++ (b'/' ∷ tail)) h k
        (strip_port_port host port tail (lacks_colon host host_path_bytes) d)
      ∙ rw (sym whole_tail) whole_tidy

  form_bare : normalize_repo whole ≡ canonical host path
  form_bare =
      from_whole whole (plain-of_path whole whole_bytes)
        (rw (strip_schemes_bare whole whole_IsBare) whole_user)

  form_https : normalize_repo (text "https://" ++ whole) ≡ canonical host path
  form_https =
      from_whole (text "https://" ++ whole) (behind (text "https://") refl)
        (rw (strip_https whole whole_IsBare) whole_user)

  form_http : normalize_repo (text "http://" ++ whole) ≡ canonical host path
  form_http =
      from_whole (text "http://" ++ whole) (behind (text "http://") refl)
        (rw (strip_http whole whole_IsBare) whole_user)

  form_git : normalize_repo (text "git://" ++ whole) ≡ canonical host path
  form_git =
      from_whole (text "git://" ++ whole) (behind (text "git://") refl)
        (rw (strip_git whole whole_IsBare) whole_user)

  form_ssh : normalize_repo (text "ssh://" ++ whole) ≡ canonical host path
  form_ssh =
      from_whole (text "ssh://" ++ whole) (behind (text "ssh://") refl)
        (rw (strip_ssh whole) whole_user)

  form_ssh_user : normalize_repo (text "ssh://git@" ++ whole) ≡ canonical host path
  form_ssh_user =
      from_whole (text "ssh://git@" ++ whole) (behind (text "ssh://git@") refl)
        (rw (strip_ssh (text "git@" ++ whole)) (strip_user_git whole))

  form_https_port :
      (port : Bytes)
      → is_all_digits port ≡ true
      → normalize_repo (text "https://" ++ ported port) ≡ canonical host path
  form_https_port port d =
      ported_tidy (text "https://" ++ ported port) port d
        (all_bytes-append is_plain (text "https://") (ported port) refl (ported_plain port d))
        (rw (strip_https (ported port) (ported-IsBare port d))
          (strip_user_none (ported port) (ported_at port d)))

  form_ssh_port :
      (port : Bytes)
      → is_all_digits port ≡ true
      → normalize_repo (text "ssh://git@" ++ ported port) ≡ canonical host path
  form_ssh_port port d =
      ported_tidy (text "ssh://git@" ++ ported port) port d
        (all_bytes-append is_plain (text "ssh://git@") (ported port) refl (ported_plain port d))
        (rw (strip_ssh (text "git@" ++ ported port)) (strip_user_git (ported port)))

  ported_tail :
      (port : Bytes) → (host ++ (b':' ∷ (port ++ (b'/' ∷ path)))) ++ ending e ≡ ported port
  ported_tail port =
      append_assoc host (b':' ∷ (port ++ (b'/' ∷ path))) (ending e)
      ∙ ap (λ (t : Bytes). host ++ (b':' ∷ t)) (append_assoc port (b'/' ∷ path) (ending e))

  scp_tail : (host ++ (b':' ∷ path)) ++ ending e ≡ host ++ (b':' ∷ tail)
  scp_tail = append_assoc host (b':' ∷ path) (ending e)

-- Every spelling of a repository (bare, https, http, git, ssh, ssh with a user, scp-like, https
-- and ssh with a port), with nothing, a slash, .git or .git/ behind the path, normalises to
-- host/path, if host and path are lower case, have no bytes that separate them, no double slash
-- and no such ending, and the port is digits or the path behind a colon does not start with a
-- segment of digits.
pub normalize_repo-render :
    (host path : Bytes) (form : Form) (e : Ending)
    → IsRepo host path
    → Reads form (path ++ ending e)
    → normalize_repo (render form host path ++ ending e) ≡ canonical host path
normalize_repo-render host path bare e repo r = form_bare host path repo e
normalize_repo-render host path https e repo r = form_https host path repo e
normalize_repo-render host path http e repo r = form_http host path repo e
normalize_repo-render host path git e repo r = form_git host path repo e
normalize_repo-render host path ssh e repo r = form_ssh host path repo e
normalize_repo-render host path ssh_user e repo r = form_ssh_user host path repo e
normalize_repo-render host path scp e repo r =
    rw (scp_tail host path repo e) (normalize_scp host path repo e r)
normalize_repo-render host path (https_port port) e repo r =
    rw (ported_tail host path repo e port) (form_https_port host path repo e port r)
normalize_repo-render host path (ssh_port port) e repo r =
    rw (ported_tail host path repo e port) (form_ssh_port host path repo e port r)

-- Two spellings of one repository (under the conditions of the normal form), with the same name,
-- target and architecture, have the same project key, for any digest.
pub project_key-render :
    (sha256 : Bytes → Bytes) (host path name target arch : Bytes) (f g : Form) (d e : Ending)
    → IsRepo host path
    → Reads f (path ++ ending d)
    → Reads g (path ++ ending e)
    → project_key sha256 (render f host path ++ ending d) name target arch
      ≡ project_key sha256 (render g host path ++ ending e) name target arch
unfolding project_key project_seed
project_key-render sha256 host path name target arch f g d e repo r s =
    rw (normalize_repo-render host path f d repo r, normalize_repo-render host path g e repo s)
