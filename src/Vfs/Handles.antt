-- ===== src/Vfs/Handles.antt =====
-- The files of polars-logfmt/src/ssh_vfs behind a decoder or an SFTP handle: local_zst_file.rs,
-- ssh_zst_file.rs and ssh_plain_file.rs.
pub mod Fill
pub mod Contracts
pub mod Spans
pub mod Samples
mod Tests
use polars_logfmt.Prelude.{
  ℕ, zero, suc, ◌+◌, ◌-◌, ◌%◌, ◌^◌, Bool, true, false, List, [], ◌++◌, Option, none, some, ltb,
  ◌==◌, length,
}
use polars_logfmt.Text.{Bytes}
use polars_logfmt.Logfmt.Value.{unwrap_or}
use polars_logfmt.Vfs.{SeekableVfsFile, seek_table_decomp_frames}

-- zeekstd's `Decoder` over a file, and ssh2's `File`: what the handles call. A `none` and a `false` are
-- errors.
pub record Decoder (D : Type 0) : Type 0 where
  pub seek : ℕ → D → D × Bool
  pub read : ℕ → D → D × Option Bytes
  pub num_frames : D → ℕ
  pub frame_end_decomp : D → ℕ → Option ℕ

pub record FileStat : Type 0 where
  pub size : Option ℕ
  pub mtime : Option ℕ

pub record SftpFile (F : Type 0) : Type 0 where
  pub seek : ℕ → F → F × Bool
  pub read : ℕ → F → F × Option Bytes
  pub stat : F → Option FileStat

pub record VfsFileStat : Type 0 where
  pub size : ℕ
  pub is_seekable : Bool
  pub mtime : Option ℕ

-- `+=` on `u64`
abbrev pub add_u64 : ℕ → ℕ → ℕ
add_u64 a b = (a + b) % 2 ^ 64

-- `file.stat()` of the handles that keep their size.
abbrev pub kept_stat : ℕ → VfsFileStat
kept_stat size = record { size = size; is_seekable = true; mtime = none }

module _ {D : Type 0} (zst : Decoder D) where
  -- `frame_end_decomp(num_frames().saturating_sub(1)).unwrap_or(0)`
  abbrev pub logical_size : D → ℕ
  logical_size d = unwrap_or 0 (zst.frame_end_decomp d (zst.num_frames d - 1))

  -- The loop of `read`: `want` is `buf.len()`, and `got` the bytes in front of `total`. Each turn but the
  -- last gets a byte, so that one turn for each byte that is wanted and one more is enough fuel.
  pub fill : ℕ → ℕ → Bytes → D → D × Option Bytes
  fill zero want got d = (d, none)
  fill (suc fuel) want got d = elim (ltb (length got) want) [
    | false ↦ (d, some got)
    | true ↦
        let (d', out) = zst.read (want - length got) d in
        elim out [
          | none ↦ (d', none)
          | some bs ↦ elim (length bs == 0) [
            | true ↦ (d', some got)
            | false ↦ fill fuel want (got ++ bs) d'
          ]
        ]
  ]

  pub record LocalSeekableZstdFile : Type 0 where
    pub inner : D
    pub pos : ℕ
    pub size : ℕ
    pub path : Bytes

  -- From behind `File::open` and `Decoder::new`.
  unfoldable pub open_local_zst : Bytes → D → LocalSeekableZstdFile
  open_local_zst path d = record { inner = d; pos = 0; size = logical_size d; path = path }

  abbrev local_seeked : ℕ → LocalSeekableZstdFile → D × Bool → LocalSeekableZstdFile × Bool
  local_seeked to s (d, true) = (record s { inner = d; pos = to }, true)
  local_seeked to s (d, false) = (record s { inner = d }, false)

  abbrev pub local_filled :
      LocalSeekableZstdFile → D × Option Bytes → LocalSeekableZstdFile × Option Bytes
  local_filled s (d, none) = (record s { inner = d }, none)
  local_filled s (d, some bs) = (record s { inner = d; pos = add_u64 s.pos (length bs) }, some bs)

  unfoldable pub local_zst_file : SeekableVfsFile LocalSeekableZstdFile
  unfolding fill seek_table_decomp_frames
  local_zst_file = record {
    size = λ s. (s, some s.size);
    seek = λ to s. local_seeked to s (zst.seek to s.inner);
    read = λ n s. local_filled s (fill (suc n) n [] s.inner);
    seek_table_decomp_frames =
        λ s. (s, seek_table_decomp_frames (zst.num_frames s.inner) (zst.frame_end_decomp s.inner));
  }

  pub record SshSeekableZstFile : Type 0 where
    pub path : Bytes
    pub offset : ℕ
    pub size : Option ℕ
    pub decoder : Option D

  unfoldable pub open_ssh_zst : Bytes → D → SshSeekableZstFile
  open_ssh_zst path d = record {
    path = path;
    offset = 0;
    size = some (logical_size d);
    decoder = some d;
  }

  abbrev ssh_seeked : ℕ → SshSeekableZstFile → D × Bool → SshSeekableZstFile × Bool
  ssh_seeked to s (d, true) = (record s { decoder = some d; offset = to }, true)
  ssh_seeked to s (d, false) = (record s { decoder = some d }, false)

  abbrev ssh_filled : SshSeekableZstFile → D × Option Bytes → SshSeekableZstFile × Option Bytes
  ssh_filled s (d, none) = (record s { decoder = some d }, none)
  ssh_filled s (d, some bs) =
      (record s { decoder = some d; offset = add_u64 s.offset (length bs) }, some bs)

  abbrev seek_ssh_zst : ℕ → Option D → SshSeekableZstFile → SshSeekableZstFile × Bool
  seek_ssh_zst to none s = (s, false)
  seek_ssh_zst to (some d) s = ssh_seeked to s (zst.seek to d)

  abbrev read_ssh_zst : ℕ → Option D → SshSeekableZstFile → SshSeekableZstFile × Option Bytes
  read_ssh_zst n none s = (s, none)
  read_ssh_zst n (some d) s = ssh_filled s (fill (suc n) n [] d)

  abbrev table_ssh_zst : Option D → Option (List (ℕ × ℕ))
  table_ssh_zst none = none
  table_ssh_zst (some d) = seek_table_decomp_frames (zst.num_frames d) (zst.frame_end_decomp d)

  unfoldable pub ssh_zst_file : SeekableVfsFile SshSeekableZstFile
  unfolding fill seek_table_decomp_frames
  ssh_zst_file = record {
    size = λ s. (s, s.size);
    seek = λ to s. seek_ssh_zst to s.decoder s;
    read = λ n s. read_ssh_zst n s.decoder s;
    seek_table_decomp_frames = λ s. (s, table_ssh_zst s.decoder);
  }

module _ {F : Type 0} (sftp : SftpFile F) where
  pub record SshSeekablePlainFile : Type 0 where
    pub path : Bytes
    pub offset : ℕ
    pub size : Option ℕ
    pub file : Option F

  abbrev pub opened_plain : Bytes → F → Option FileStat → Option SshSeekablePlainFile
  opened_plain path file none = none
  opened_plain path file (some stat) =
      some (record { path = path; offset = 0; size = stat.size; file = some file })

  -- From behind `sftp.open`; `none` is an error of `stat`.
  unfoldable pub open_ssh_plain : Bytes → F → Option SshSeekablePlainFile
  open_ssh_plain path file = opened_plain path file (sftp.stat file)

  abbrev plain_seeked : ℕ → SshSeekablePlainFile → F × Bool → SshSeekablePlainFile × Bool
  plain_seeked to s (file, true) = (record s { file = some file; offset = to }, true)
  plain_seeked to s (file, false) = (record s { file = some file }, false)

  abbrev plain_got : SshSeekablePlainFile → F × Option Bytes → SshSeekablePlainFile × Option Bytes
  plain_got s (file, none) = (record s { file = some file }, none)
  plain_got s (file, some bs) =
      (record s { file = some file; offset = add_u64 s.offset (length bs) }, some bs)

  abbrev seek_plain : ℕ → Option F → SshSeekablePlainFile → SshSeekablePlainFile × Bool
  seek_plain to none s = (s, false)
  seek_plain to (some file) s = plain_seeked to s (sftp.seek to file)

  abbrev read_plain : ℕ → Option F → SshSeekablePlainFile → SshSeekablePlainFile × Option Bytes
  read_plain n none s = (s, none)
  read_plain n (some file) s = plain_got s (sftp.read n file)

  unfoldable pub ssh_plain_file : SeekableVfsFile SshSeekablePlainFile
  ssh_plain_file = record {
    size = λ s. (s, s.size);
    seek = λ to s. seek_plain to s.file s;
    read = λ n s. read_plain n s.file s;
    seek_table_decomp_frames = λ s. (s, none);
  }
