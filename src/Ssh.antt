-- ===== src/Ssh.antt =====
-- `parse_ssh_source` of polars-logfmt/src/ssh.rs: a source named by a URL.
pub mod Sources
mod Tests
use polars_logfmt.Prelude.{
  ℕ, Bool, true, false, not, ◌||◌, [], ◌∷◌, Option, none, some, if◌then◌else◌,
}
use polars_logfmt.Text.{Bytes, bytes_eq, codes}
use polars_logfmt.Text.Search.{is_empty}

pub record SshSource : Type 0 where
  pub user : Bytes
  pub host : Bytes
  pub port : ℕ
  pub path : Bytes
  pub line_filter : Option Bytes

-- The URLs of the url crate.
pub record Urls : Type 1 where
  pub Url : Type 0
  pub parse : Bytes → Option Url
  pub scheme : Url → Bytes
  pub username : Url → Bytes
  pub host_str : Url → Option Bytes
  pub url_port : Url → Option ℕ
  pub url_path : Url → Bytes

-- The errors, by what they say.
pub data SshResult : Type 0 where
  ok : SshSource → SshResult
  invalid_url scheme_must_be_ssh must_include_user must_include_host must_include_path : SshResult

abbrev pub port_or_22 : Option ℕ → ℕ
port_or_22 none = 22
port_or_22 (some port) = port

module _ (urls : Urls) where
  pub with_host : urls.Url → Option Bytes → SshResult
  with_host url none = must_include_host
  with_host url (some host) =
      if bytes_eq (urls.url_path url) (codes "/") || is_empty (urls.url_path url)
      then must_include_path
      else ok (record {
        user = urls.username url;
        host = host;
        port = port_or_22 (urls.url_port url);
        path = urls.url_path url;
        line_filter = none;
      })

  pub with_url : Option urls.Url → SshResult
  with_url none = invalid_url
  with_url (some url) =
      if not (bytes_eq (urls.scheme url) (codes "ssh"))
      then scheme_must_be_ssh
      else if is_empty (urls.username url)
      then must_include_user
      else with_host url (urls.host_str url)

  unfoldable pub parse_ssh_source : Bytes → SshResult
  unfolding with_host with_url
  parse_ssh_source source = with_url (urls.parse source)

  -- `contain_line`
  unfoldable pub contain_line : Bytes → SshSource → SshSource
  contain_line needle source = record source { line_filter = some needle }
