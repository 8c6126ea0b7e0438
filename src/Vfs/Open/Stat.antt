-- ===== src/Vfs/Open/Stat.antt =====
-- What `stat` says of a path, and what the file that it opens says of itself.
use polars_logfmt.Prelude.{
  ℕ, Bool, true, false, not, ◌&&◌, ◌≡◌, ◌⊎◌, inl, inr, refl, ap, Option, none, some, if◌then◌else◌,
  arith, Bool-cases,
}
use polars_logfmt.Text.{Bytes}
use polars_logfmt.Logfmt.Scan.{◌>>=◌}
use polars_logfmt.Vfs.Handles.{
  FileStat, VfsFileStat, kept_stat, logical_size, opened_plain, open_local_zst, open_ssh_plain,
}
use polars_logfmt.Vfs.Sftp
use polars_logfmt.Vfs.Sftp.{stated}
use polars_logfmt.Vfs.Open.{
  System, bare, open_ssh_zst_at, Handle, ssh_zst, ssh_plain, local_zst, stat_handle, is_ssh_path,
  is_zst_path, open_remote, stat_remote, session_of, open_ssh, stat_ssh, open_local, open_vfs,
  stat_vfs,
}

abbrev pub stat_size : Option VfsFileStat → Option ℕ
stat_size none = none
stat_size (some s) = some s.size

-- Neither remote nor zstd files are local zstd files.
abbrev pub is_local_zst : Bytes → Bool
is_local_zst path = not (is_ssh_path path) && is_zst_path path

-- What is opened and what is asked begin alike.
sized-bind {ℓ κ} :
    {A : Type ℓ} {H : Type κ} (m : Option A) (open_with : A → Option H)
    (stat_with : A → Option VfsFileStat) (stat_of : H → Option VfsFileStat)
    → ((a : A) (h : H) → open_with a ≡ some h → stat_size (stat_with a) ≡ stat_size (stat_of h))
    → (h : H) → (m >>= open_with) ≡ some h
    → stat_size (m >>= stat_with) ≡ stat_size (stat_of h)
sized-bind none open_with stat_with stat_of alike h opens = cc
sized-bind (some a) open_with stat_with stat_of alike h opens = alike a h opens

module _ (sys : System) where
  of_some :
      (h h' : Handle sys)
      → some h ≡ some h'
      → stat_size (stat_handle sys h) ≡ stat_size (stat_handle sys h')
  of_some h h' same = ap (λ (o : Option (Handle sys)). stat_size (o >>= stat_handle sys)) same

  stated-size :
      (path : Bytes) (file : sys.SshFile) (h : Handle sys) (o : Option FileStat)
      → (opened_plain sys.plain path file o >>= λ f. some (ssh_plain f)) ≡ some h
      → stat_size (stated sys.sftp_open sys.plain o) ≡ stat_size (stat_handle sys h)
  unfolding stat_handle
  stated-size path file h none opens = cc
  stated-size path file h (some stat) opens = of_some _ _ opens

  stat_plain-size :
      (path path_on_remote : Bytes) (sftp : sys.Sftp) (file : sys.SshFile) (h : Handle sys)
      → (open_ssh_plain sys.plain path_on_remote file >>= λ f. some (ssh_plain f)) ≡ some h
      → stat_size (Sftp.stat sys.sftp_open sys.plain (bare sys path false (some sftp) (some file)))
        ≡ stat_size (stat_handle sys h)
  unfolding stat_handle open_ssh_plain Sftp.stat
  stat_plain-size path path_on_remote sftp file h opens =
      stated-size path_on_remote file h (sys.plain.stat file) opens

  stat_remote-size :
      (path path_on_remote : Bytes) (sftp : sys.Sftp) (h : Handle sys)
      → open_remote sys path_on_remote sftp ≡ some h
      → stat_size (stat_remote sys path path_on_remote sftp) ≡ stat_size (stat_handle sys h)
  stat_remote-size path path_on_remote sftp = elim (Bool-cases (is_zst_path path_on_remote)) [
    | inl zst ↦ rw zst (λ h.
        sized-bind (open_ssh_zst_at sys path_on_remote sftp) (λ f. some (ssh_zst f))
          (λ f. stat_handle sys (ssh_zst f)) (stat_handle sys) (λ f h' same. of_some _ _ same) h)
    | inr plain ↦ rw plain (λ h.
        sized-bind (sys.sftp_open sftp path_on_remote) _ _ (stat_handle sys)
          (stat_plain-size path path_on_remote sftp) h)
  ]

  stat_session-size :
      (path path_on_remote : Bytes) (sess : sys.Session) (h : Handle sys)
      → (if sys.authenticated sess
          then (sys.sftp sess >>= λ sftp. open_remote sys path_on_remote sftp)
          else none)
        ≡ some h
      → stat_size (sys.sftp sess >>= λ sftp. stat_remote sys path path_on_remote sftp)
        ≡ stat_size (stat_handle sys h)
  stat_session-size path path_on_remote sess = elim (Bool-cases (sys.authenticated sess)) [
    | inl known ↦ rw known (λ h.
        sized-bind (sys.sftp sess) _ _ (stat_handle sys) (stat_remote-size path path_on_remote) h)
    | inr unknown ↦ rw unknown (λ h opens. cc)
  ]

  stat_ssh-size :
      (path : Bytes) (h : Handle sys)
      → open_ssh sys path ≡ some h
      → stat_size (stat_ssh sys path) ≡ stat_size (stat_handle sys h)
  stat_ssh-size path = sized-bind (sys.urls.parse path) _ _ (stat_handle sys) (λ url.
      sized-bind (session_of sys url) _ _ (stat_handle sys)
        (stat_session-size path (sys.urls.url_path url)))

  -- For a path that is not that of a local zstd file, `stat` gives the size that the file gives which the path
  -- opens.
  pub stat_vfs-size :
      (path : Bytes) (h : Handle sys)
      → is_local_zst path ≡ false
      → open_vfs sys path ≡ some h
      → stat_size (stat_vfs sys path) ≡ stat_size (stat_handle sys h)
  unfolding open_vfs stat_vfs
  stat_vfs-size path = elim (Bool-cases (is_ssh_path path)) [
    | inl ssh ↦ rw ssh (λ h elsewhere. stat_ssh-size path h)
    | inr local ↦ rw local (elim (Bool-cases (is_zst_path path)) [
      | inl zst ↦ rw zst (λ h elsewhere. cc)
      | inr plain ↦ rw plain (λ h elsewhere.
          sized-bind (open_local sys path) _ _ (stat_handle sys) (λ f h' same. of_some _ _ same) h)
    ])
  ]

  opens_local_zst :
      (path : Bytes)
      → is_ssh_path path ≡ false
      → is_zst_path path ≡ true
      → (o : Option sys.File) → sys.file_open path ≡ o
      → (r : Option sys.LocalDecoder) → (o >>= sys.new_decoder) ≡ r
      → (open_vfs sys path ≡ none)
        ⊎ ((file : sys.File) × (d : sys.LocalDecoder) × (h : Handle sys) × (sys.file_open path
              ≡ some file)
            × (sys.new_decoder file ≡ some d)
            × (open_vfs sys path ≡ some h)
            × (stat_handle sys h ≡ some (kept_stat (logical_size sys.local_zst d))))
  unfolding open_vfs stat_handle open_local_zst
  opens_local_zst path not_ssh zst none missing r decodes = inl (rw (not_ssh, zst, missing) refl)
  opens_local_zst path not_ssh zst (some file) opened none decodes =
      inl (rw (not_ssh, zst, opened, decodes) refl)
  opens_local_zst path not_ssh zst (some file) opened (some d) decodes = inr (
    file,
    d,
    local_zst (open_local_zst sys.local_zst path d),
    opened,
    decodes,
    rw (not_ssh, zst, opened, decodes) refl,
    refl,
  )

  -- For the path of a local zstd file, `stat` gives the size 0, whatever the file holds and whether there is
  -- one or not; `open` of the path fails, or it gives a file that says the size that the seek table of the
  -- opened file ends at.
  pub stat_vfs-local_zst :
      (path : Bytes)
      → is_local_zst path ≡ true
      → (stat_vfs sys path ≡ some (kept_stat 0))
        × ((open_vfs sys path ≡ none)
            ⊎ ((file : sys.File) × (d : sys.LocalDecoder) × (h : Handle sys) × (sys.file_open path
                  ≡ some file)
                × (sys.new_decoder file ≡ some d)
                × (open_vfs sys path ≡ some h)
                × (stat_handle sys h ≡ some (kept_stat (logical_size sys.local_zst d)))))
  unfolding stat_vfs Sftp.stat
  stat_vfs-local_zst path local =
      let not_ssh : is_ssh_path path ≡ false = ground (arith, local) in
      let zst : is_zst_path path ≡ true = ground (arith, local) in
      (rw (not_ssh, zst) refl, opens_local_zst path not_ssh zst _ refl _ refl)
