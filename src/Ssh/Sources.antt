-- ===== src/Ssh/Sources.antt =====
-- What a source that is accepted has.
use polars_logfmt.Prelude.{false, ◌↔◌, ◌≡◌, none, some, arith}
use polars_logfmt.Text.{Bytes, bytes_eq, bytes_eq_iff, codes}
use polars_logfmt.Text.Search.{is_empty}
use polars_logfmt.Ssh.{Urls, ok, port_or_22, parse_ssh_source}

-- A text that is a URL with a host is accepted just if its scheme is ssh, it has a user, and its path is
-- neither empty nor the root alone; the source has the user, the host and the path of the URL, no filter,
-- and the URL's port, or 22 if there is none.
pub parse_ssh_source-ok :
    (urls : Urls) (text : Bytes) (url : urls.Url) (host : Bytes)
    → urls.parse text ≡ some url
    → urls.host_str url ≡ some host
    → (parse_ssh_source urls text
        ≡ ok (record {
          user = urls.username url;
          host = host;
          port = port_or_22 (urls.url_port url);
          path = urls.url_path url;
          line_filter = none;
        }))
      ↔ ((urls.scheme url ≡ codes "ssh")
          × (is_empty (urls.username url) ≡ false)
          × (is_empty (urls.url_path url) ≡ false)
          × (bytes_eq (urls.url_path url) (codes "/") ≡ false))
unfolding parse_ssh_source
parse_ssh_source-ok urls text url host parsed hosted =
    ground (arith, parsed, hosted, bytes_eq_iff (urls.scheme url) (codes "ssh"))
