-- ===== src/Vfs/Sftp.antt =====
-- `SshSeekableZstdFile` of polars-logfmt/src/ssh_vfs/mod.rs: one handle type for a plain file over SFTP
-- and for a zstd file that it does not read.
use polars_logfmt.Prelude.{ℕ, Bool, true, false, [], Option, none, some, length}
use polars_logfmt.Text.{Bytes}
use polars_logfmt.Logfmt.Value.{unwrap_or}
use polars_logfmt.Vfs.{SeekableVfsFile}
use polars_logfmt.Vfs.Handles.{FileStat, SftpFile, VfsFileStat, add_u64, kept_stat}

-- A call that returns, fails, or panics.
pub data Opened {ℓ} (A : Type ℓ) : Type ℓ where
  ok : A → Opened A
  error panic : Opened A

module _ {A F : Type 0} (sftp_open : A → Bytes → Option F) (sftp : SftpFile F) where
  pub record SshSeekableZstdFile : Type 0 where
    pub path : Bytes
    pub offset : ℕ
    pub size : Option ℕ
    pub is_zst : Bool
    pub session : Option A
    pub sftp_file : Option F

  abbrev sought : ℕ → SshSeekableZstdFile → F × Bool → SshSeekableZstdFile × Bool
  sought pos s (f, true) = (record s { sftp_file = some f; offset = pos }, true)
  sought pos s (f, false) = (record s { sftp_file = some f }, false)

  abbrev got : SshSeekableZstdFile → F × Option Bytes → SshSeekableZstdFile × Option Bytes
  got s (f, none) = (record s { sftp_file = some f }, none)
  got s (f, some bs) =
      (record s { sftp_file = some f; offset = add_u64 s.offset (length bs) }, some bs)

  abbrev seek_in : ℕ → Bool → Option F → SshSeekableZstdFile → SshSeekableZstdFile × Bool
  seek_in pos true file s = (record s { offset = pos }, true)
  seek_in pos false none s = (s, false)
  seek_in pos false (some f) s = sought pos s (sftp.seek pos f)

  -- A read of a zstd file is the end of the file.
  abbrev read_in : ℕ → Bool → Option F → SshSeekableZstdFile → SshSeekableZstdFile × Option Bytes
  read_in n true file s = (s, some [])
  read_in n false none s = (s, none)
  read_in n false (some f) s = got s (sftp.read n f)

  abbrev size_stated : Option FileStat → Option ℕ
  size_stated none = none
  size_stated (some stat) = some (unwrap_or 0 stat.size)

  abbrev size_in : Bool → Option F → Option ℕ → Option ℕ
  size_in true file size = size
  size_in false none size = none
  size_in false (some f) size = size_stated (sftp.stat f)

  abbrev pub stated : Option FileStat → Option VfsFileStat
  stated none = none
  stated (some stat) =
      some (record { size = unwrap_or 0 stat.size; is_seekable = true; mtime = stat.mtime })

  abbrev stat_in : Bool → Option F → Option ℕ → Option VfsFileStat
  stat_in true file size = some (kept_stat (unwrap_or 0 size))
  stat_in false none size = none
  stat_in false (some f) size = stated (sftp.stat f)

  unfoldable pub ssh_zstd_file : SeekableVfsFile SshSeekableZstdFile
  ssh_zstd_file = record {
    size = λ s. (s, size_in s.is_zst s.sftp_file s.size);
    seek = λ pos s. seek_in pos s.is_zst s.sftp_file s;
    read = λ n s. read_in n s.is_zst s.sftp_file s;
    seek_table_decomp_frames = λ s. (s, none);
  }

  unfoldable pub stat : SshSeekableZstdFile → Option VfsFileStat
  stat s = stat_in s.is_zst s.sftp_file s.size

  abbrev read_sync_in :
      ℕ → Bool → Option F → SshSeekableZstdFile → SshSeekableZstdFile × Option Bytes
  read_sync_in n true file s = (s, none)
  read_sync_in n false none s = (s, none)
  read_sync_in n false (some f) s = got s (sftp.read n f)

  abbrev seek_sync_in : ℕ → Bool → Option F → SshSeekableZstdFile → SshSeekableZstdFile × Bool
  seek_sync_in pos true file s = (s, false)
  seek_sync_in pos false none s = (s, false)
  seek_sync_in pos false (some f) s = sought pos s (sftp.seek pos f)

  abbrev stat_sync_in : Bool → Option F → Option VfsFileStat
  stat_sync_in true file = none
  stat_sync_in false none = none
  stat_sync_in false (some f) = stated (sftp.stat f)

  -- `read_async` is the same.
  unfoldable pub read_sync : ℕ → SshSeekableZstdFile → SshSeekableZstdFile × Option Bytes
  read_sync n s = read_sync_in n s.is_zst s.sftp_file s

  -- `seek_async` is the same.
  unfoldable pub seek_sync : ℕ → SshSeekableZstdFile → SshSeekableZstdFile × Bool
  seek_sync pos s = seek_sync_in pos s.is_zst s.sftp_file s

  -- `stat_async` is the same.
  unfoldable pub stat_sync : SshSeekableZstdFile → Option VfsFileStat
  stat_sync s = stat_sync_in s.is_zst s.sftp_file

  -- `f.stat().ok().and_then(|stat| stat.size)`
  abbrev known_size : Option FileStat → Option ℕ
  known_size none = none
  known_size (some stat) = stat.size

  abbrev opened : Bytes → A → Option F → Opened SshSeekableZstdFile
  opened path session none = Opened.error
  opened path session (some f) = Opened.ok (record {
    path = path;
    offset = 0;
    size = known_size (sftp.stat f);
    is_zst = false;
    session = some session;
    sftp_file = some f;
  })

  unfoldable pub open_sftp : Bytes → A → Bool → Opened SshSeekableZstdFile
  open_sftp path session true = Opened.panic
  open_sftp path session false = opened path session (sftp_open session path)

  abbrev cloned : Bytes → Bool → Option A → Opened SshSeekableZstdFile
  cloned path is_zst none = Opened.error
  cloned path is_zst (some session) = open_sftp path session is_zst

  unfoldable pub clone_handle : SshSeekableZstdFile → Opened SshSeekableZstdFile
  unfolding open_sftp
  clone_handle s = cloned s.path s.is_zst s.session
