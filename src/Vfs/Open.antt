-- ===== src/Vfs/Open.antt =====
-- `SshSeekableZstdVfs` of polars-logfmt/src/ssh_vfs/mod.rs: which file a path names, and how it is opened.
pub mod Stat
mod Tests
use polars_logfmt.Prelude.{ℕ, Bool, true, false, ◌||◌, Option, none, some, if◌then◌else◌}
use polars_logfmt.Text.{Bytes, codes}
use polars_logfmt.Text.Search.{starts_with, ends_with}
use polars_logfmt.Logfmt.Scan.{◌>>=◌}
use polars_logfmt.Logfmt.Value.{unwrap_or}
use polars_logfmt.Ssh.{Urls, port_or_22}
use polars_logfmt.Vfs.Handles.{
  Decoder, SftpFile, VfsFileStat, kept_stat, LocalSeekableZstdFile, open_local_zst,
  SshSeekableZstFile, open_ssh_zst, SshSeekablePlainFile, open_ssh_plain,
}
use polars_logfmt.Vfs.Sftp
use polars_logfmt.Vfs.Sftp.{SshSeekableZstdFile}

-- The file system, ssh2 and zeekstd, as far as the files are opened through them. A `none` is an error.
pub record System : Type 1 where
  pub urls : Urls
  -- `TcpStream::connect`, `Session::new` and the calls of a session
  pub Tcp : Type 0
  pub Session : Type 0
  pub Sftp : Type 0
  pub connect : Bytes → ℕ → Option Tcp
  pub new_session : Option Session
  pub set_tcp_stream : Tcp → Session → Session
  pub handshake : Session → Option Session
  pub userauth_agent : Bytes → Session → Option Session
  pub authenticated : Session → Bool
  pub sftp : Session → Option Sftp
  -- `sftp.open`, and `Decoder::new` over what it gives
  pub SshFile : Type 0
  pub sftp_open : Sftp → Bytes → Option SshFile
  pub plain : SftpFile SshFile
  pub SshDecoder : Type 0
  pub new_ssh_decoder : SshFile → Option SshDecoder
  pub ssh_zst : Decoder SshDecoder
  -- `File::open`, `metadata()?.len()`, `metadata()?.modified().ok()`, and `Decoder::new`
  pub File : Type 0
  pub file_open : Bytes → Option File
  pub len : File → Option ℕ
  pub modified : File → Option (Option ℕ)
  pub LocalDecoder : Type 0
  pub new_decoder : File → Option LocalDecoder
  pub local_zst : Decoder LocalDecoder

-- `path.ends_with(".zst") || path.ends_with(".seek.zst")`
abbrev pub is_zst_path : Bytes → Bool
is_zst_path path = ends_with path (codes ".zst") || ends_with path (codes ".seek.zst")

abbrev pub is_ssh_path : Bytes → Bool
is_ssh_path path = starts_with path (codes "ssh://")

module _ (sys : System) where
  pub record LocalSeekableFile : Type 0 where
    pub file : sys.File
    pub size : ℕ
    pub path : Bytes

  -- The file of a `Box<dyn SeekableVfsFile>`.
  pub data Handle : Type 0 where
    ssh_zst : SshSeekableZstFile sys.ssh_zst → Handle
    ssh_plain : SshSeekablePlainFile sys.plain → Handle
    local_zst : LocalSeekableZstdFile sys.local_zst → Handle
    local_plain : LocalSeekableFile → Handle

  abbrev pub open_local : Bytes → Option LocalSeekableFile
  open_local path = sys.file_open path >>= λ file.
      sys.len file >>= λ size. some (record { file = file; size = size; path = path })

  abbrev local_stat : ℕ → Option (Option ℕ) → Option VfsFileStat
  local_stat size none = none
  local_stat size (some mtime) = some (record { size = size; is_seekable = true; mtime = mtime })

  -- `stat` of an open file.
  unfoldable pub stat_handle : Handle → Option VfsFileStat
  stat_handle (ssh_zst f) = some (kept_stat (unwrap_or 0 f.size))
  stat_handle (ssh_plain f) = some (kept_stat (unwrap_or 0 f.size))
  stat_handle (local_zst f) = some (kept_stat f.size)
  stat_handle (local_plain f) = local_stat f.size (sys.modified f.file)

  -- As far as `userauth_agent`.
  abbrev pub session_of : sys.urls.Url → Option sys.Session
  session_of url = sys.urls.host_str url >>= λ host.
      sys.connect host (port_or_22 (sys.urls.url_port url)) >>= λ tcp. sys.new_session >>= λ sess.
      sys.handshake (sys.set_tcp_stream tcp sess) >>= λ sess'.
      sys.userauth_agent (sys.urls.username url) sess'

  abbrev pub open_ssh_zst_at : Bytes → sys.Sftp → Option (SshSeekableZstFile sys.ssh_zst)
  open_ssh_zst_at path sftp = sys.sftp_open sftp path >>= λ file.
      sys.new_ssh_decoder file >>= λ d. some (open_ssh_zst sys.ssh_zst path d)

  abbrev pub open_remote : Bytes → sys.Sftp → Option Handle
  open_remote path sftp =
      if is_zst_path path
      then (open_ssh_zst_at path sftp >>= λ f. some (ssh_zst f))
      else sys.sftp_open sftp path >>= λ file.
          open_ssh_plain sys.plain path file >>= λ f. some (ssh_plain f)

  abbrev pub open_local_zst_at : Bytes → Option (LocalSeekableZstdFile sys.local_zst)
  open_local_zst_at path = sys.file_open path >>= λ file.
      sys.new_decoder file >>= λ d. some (open_local_zst sys.local_zst path d)

  abbrev pub open_ssh : Bytes → Option Handle
  open_ssh path = sys.urls.parse path >>= λ url. session_of url >>= λ sess.
      if sys.authenticated sess
      then (sys.sftp sess >>= λ sftp. open_remote (sys.urls.url_path url) sftp)
      else none

  unfoldable pub open_vfs : Bytes → Option Handle
  open_vfs path =
      if is_ssh_path path
      then open_ssh path
      else if is_zst_path path
      then (open_local_zst_at path >>= λ f. some (local_zst f))
      else open_local path >>= λ f. some (local_plain f)

  -- The handle that `stat` makes by hand.
  abbrev bare :
      Bytes
      → Bool
      → Option sys.Sftp
      → Option sys.SshFile
      → SshSeekableZstdFile sys.sftp_open sys.plain
  bare path is_zst session file = record {
    path = path;
    offset = 0;
    size = none;
    is_zst = is_zst;
    session = session;
    sftp_file = file;
  }

  abbrev pub stat_remote : Bytes → Bytes → sys.Sftp → Option VfsFileStat
  stat_remote path path_on_remote sftp =
      if is_zst_path path_on_remote
      then (open_ssh_zst_at path_on_remote sftp >>= λ f. stat_handle (ssh_zst f))
      else sys.sftp_open sftp path_on_remote >>= λ file.
          Sftp.stat sys.sftp_open sys.plain (bare path false (some sftp) (some file))

  abbrev pub stat_ssh : Bytes → Option VfsFileStat
  stat_ssh path = sys.urls.parse path >>= λ url. session_of url >>= λ sess.
      sys.sftp sess >>= λ sftp. stat_remote path (sys.urls.url_path url) sftp

  unfoldable pub stat_vfs : Bytes → Option VfsFileStat
  unfolding stat_handle
  stat_vfs path =
      if is_ssh_path path
      then stat_ssh path
      else if is_zst_path path
      then Sftp.stat sys.sftp_open sys.plain (bare path true none none)
      else open_local path >>= λ f. stat_handle (local_plain f)
