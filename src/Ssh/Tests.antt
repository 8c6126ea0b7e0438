-- ===== src/Ssh/Tests.antt =====
-- A source with a user, a host and a path.
use polars_logfmt.Prelude.{false, ◌↔◌, ◌≡◌, refl, none, some}
use polars_logfmt.Text.{Bytes, bytes_eq, codes}
use polars_logfmt.Text.Search.{is_empty}
use polars_logfmt.Ssh.{Urls, ok, parse_ssh_source}
use polars_logfmt.Ssh.Sources.{parse_ssh_source-ok}

-- Every text is a URL of the user ann on the host box.
abbrev few_urls : Urls
few_urls = record {
  Url = Bytes;
  parse = λ text. some text;
  scheme = λ url. codes "ssh";
  username = λ url. codes "ann";
  host_str = λ url. some (codes "box");
  url_port = λ url. none;
  url_path = λ url. codes "/log";
}

parse_ssh_source-ok_example :
    (parse_ssh_source few_urls (codes "ssh://ann@box/log")
      ≡ ok (record {
        user = codes "ann";
        host = codes "box";
        port = 22;
        path = codes "/log";
        line_filter = none;
      }))
    ↔ ((codes "ssh" ≡ codes "ssh")
        × (is_empty (codes "ann") ≡ false)
        × (is_empty (codes "/log") ≡ false)
        × (bytes_eq (codes "/log") (codes "/") ≡ false))
parse_ssh_source-ok_example =
    parse_ssh_source-ok few_urls (codes "ssh://ann@box/log") (codes "ssh://ann@box/log")
      (codes "box") refl refl
