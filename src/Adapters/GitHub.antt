-- ===== src/Adapters/GitHub.antt =====
-- src/infrastructure/github/github_adapter.py: the push of a branch and the opening of a pull request.
-- `git` and the HTTP transport are parameters.
pub mod Secret
pub mod Body
use self_healing_system_tfg.Base.{
  ℕ, zero, suc, ◌-◌, Bool, true, false, not, ◌||◌, List, [], ◌∷◌, ◌++◌, Option, none, some, ◌==◌,
  if◌then◌else◌, length, take,
}
use self_healing_system_tfg.Python.Text.{Text, text, starts_with, rstrip_by, str_nat}
use self_healing_system_tfg.Python.Effects.{github_error, Py, pure, throw, ◌>>=◌}
use self_healing_system_tfg.Python.Process.{Process, ReturnCode, is_zero, str_code}

-- `s.replace(old, new)` for an `old` that is not empty; `skip` counts what is left of a match.
unfoldable pub replace_from : ℕ → Text → Text → Text → Text
unfolding starts_with
replace_from skip old new [] = []
replace_from (suc skip) old new (c ∷ s) = replace_from skip old new s
replace_from zero old new (c ∷ s) =
    let matched = replace_from (length old - 1) old new s in
    let passed = replace_from zero old new s in
    if starts_with (c ∷ s) old then new ++ matched else c ∷ passed

-- `s.replace("", new)`: before each character and at the end.
unfoldable pub interleave : Text → Text → Text
interleave new [] = new
interleave new (c ∷ s) = new ++ c ∷ interleave new s

unfoldable pub replace_text : Text → Text → Text → Text
unfolding replace_from interleave
replace_text [] new s = interleave new s
replace_text (c ∷ old) new s = replace_from zero (c ∷ old) new s

-- The fields that `GitHubAdapter.__init__` stores.
pub record GitHubAccess : Type 0 where
  pub token : Text
  pub api_base : Text

unfoldable pub new_access : Text → Text → GitHubAccess
unfolding rstrip_by
new_access token api_base = record { token = token; api_base = rstrip_by (λ c. c == b'/') api_base }

pub record PullRequest : Type 0 where
  pub title : Text
  pub head : Text
  pub base : Text
  pub body : Text
  pub draft : Bool

-- The answer to a request: its status, and `html_url` and `message` of its body as texts.
pub record HttpReply : Type 0 where
  pub status : ℕ
  pub html_url : Text
  pub reply_message : Text

pub record GitHubTools (E : Type 0) : Type 0 where
  pub push : List Text → Py E Process
  pub http_post : Text → PullRequest → List (Text × Text) → Py E HttpReply
  pub decode_error : List ℕ → Text

module _ {E : Type 0} (tools : GitHubTools E) (access : GitHubAccess) where
  unfoldable pub push_args : Text → Text → Text → Bool → List Text
  unfolding text
  push_args workspace_path repo branch force =
      (text "git"
        ∷ text "-C"
        ∷ workspace_path
        ∷ text "push"
        ∷ (text "https://x-access-token:"
            ++ access.token
            ++ text "@github.com/"
            ++ repo
            ++ text ".git")
        ∷ (text "HEAD:refs/heads/" ++ branch)
        ∷ [])
      ++ (if force then text "--force" ∷ [] else [])

  -- The error of a failed push, without the token.
  unfoldable pub push_error : ReturnCode → List ℕ → Text
  unfolding replace_text str_code text
  push_error code err =
      text "git push failed (rc="
      ++ str_code code
      ++ text "): "
      ++ take 500 (replace_text access.token (text "***") (tools.decode_error err))

  -- `GitHubAdapter.push_branch`
  unfoldable pub push_branch : Text → Text → Text → Bool → Py E (Unit {0})
  unfolding push_args push_error
  push_branch workspace_path repo branch force = do
    proc ← tools.push (push_args workspace_path repo branch force)
    if is_zero proc.returncode
        then pure tt
        else throw (github_error (push_error proc.returncode proc.stderr))

  unfoldable pub request_headers : List (Text × Text)
  unfolding text
  request_headers =
      (text "Authorization", text "Bearer " ++ access.token)
      ∷ (text "Accept", text "application/vnd.github+json")
      ∷ (text "X-GitHub-Api-Version", text "2022-11-28")
      ∷ (text "User-Agent", text "self-healing-system")
      ∷ (text "Content-Type", text "application/json")
      ∷ []

  -- `GitHubAdapter.open_pull_request`
  unfoldable pub open_pull_request : Text → PullRequest → Py E Text
  unfolding request_headers str_nat text
  open_pull_request repo payload = do
    reply ←
        tools.http_post (access.api_base ++ text "/repos/" ++ repo ++ text "/pulls") payload
          request_headers
    if reply.status == 201
        then pure reply.html_url
        else throw (
            github_error (
              text "pull-request creation failed (HTTP "
              ++ str_nat reply.status
              ++ text "): "
              ++ reply.reply_message))
