-- ===== src/Vfs/Open/Tests.antt =====
-- A system with one host, on which every file is that of `text`, and a zstd file is two frames.
use polars_logfmt.Prelude.{ℕ, true, ◌≡◌, ◌⊎◌, refl, none, some}
use polars_logfmt.Text.{Bytes, codes}
use polars_logfmt.Text.Search.{starts_with, ends_with}
use polars_logfmt.Vfs.Handles.{SftpFile, kept_stat, logical_size, open_ssh_plain}
use polars_logfmt.Vfs.Handles.Samples.{two_at_a_time}
use polars_logfmt.Vfs.Open.{System, Handle, ssh_plain, stat_handle, open_vfs, stat_vfs}
use polars_logfmt.Vfs.Open.Stat.{stat_size, stat_vfs-size, stat_vfs-local_zst}

abbrev one_file : SftpFile ℕ
one_file = record {
  seek = two_at_a_time.seek;
  read = two_at_a_time.read;
  stat = λ f. some (record { size = some 9; mtime = some 7 });
}

abbrev one_host : System
one_host = record {
  urls = record {
    Url = Bytes;
    parse = λ text. some text;
    scheme = λ url. codes "ssh";
    username = λ url. codes "ann";
    host_str = λ url. some (codes "box");
    url_port = λ url. none;
    url_path = λ url. codes "/log";
  };
  Tcp = ℕ;
  Session = ℕ;
  Sftp = ℕ;
  connect = λ host port. some port;
  new_session = some 0;
  set_tcp_stream = λ tcp sess. tcp;
  handshake = λ sess. some sess;
  userauth_agent = λ user sess. some sess;
  authenticated = λ sess. true;
  sftp = λ sess. some sess;
  SshFile = ℕ;
  sftp_open = λ sftp path. some 0;
  plain = one_file;
  SshDecoder = ℕ;
  new_ssh_decoder = λ f. some 0;
  ssh_zst = two_at_a_time;
  File = ℕ;
  file_open = λ path. some 0;
  len = λ f. some 9;
  modified = λ f. some none;
  LocalDecoder = ℕ;
  new_decoder = λ f. some 0;
  local_zst = two_at_a_time;
}

abbrev remote_log : Handle one_host
remote_log = ssh_plain (record { path = codes "/log"; offset = 0; size = some 9; file = some 0 })

remote_log-opens : open_vfs one_host (codes "ssh://ann@box/log") ≡ some remote_log
unfolding open_vfs starts_with ends_with open_ssh_plain
remote_log-opens = refl

stat_vfs-size_example :
    stat_size (stat_vfs one_host (codes "ssh://ann@box/log"))
    ≡ stat_size (stat_handle one_host remote_log)
unfolding starts_with ends_with
stat_vfs-size_example =
    stat_vfs-size one_host (codes "ssh://ann@box/log") remote_log refl remote_log-opens

stat_vfs-local_zst_example :
    (stat_vfs one_host (codes "a.zst") ≡ some (kept_stat 0))
    × ((open_vfs one_host (codes "a.zst") ≡ none)
        ⊎ ((file : ℕ) × (d : ℕ) × (h : Handle one_host) × (one_host.file_open (codes "a.zst")
              ≡ some file)
            × (one_host.new_decoder file ≡ some d)
            × (open_vfs one_host (codes "a.zst") ≡ some h)
            × (stat_handle one_host h ≡ some (kept_stat (logical_size two_at_a_time d)))))
unfolding starts_with ends_with
stat_vfs-local_zst_example = stat_vfs-local_zst one_host (codes "a.zst") refl
