-- ===== src/Sandbox/Files.antt =====
-- `WriteFile` and `ReadFile` of internal/sandbox/docker.go. The archives of `archive/tar` and the two
-- parts of a path that `path/filepath` gives are a parameter.
use foreman.Prelude.{
  ℕ, String, ◌≡◌, inl, inr, Option-cases, Result, ok, message, List, length, ◌==◌, if◌then◌else◌,
  arith, Result-cases, sym, ◌∙◌,
}
use foreman.Prelude.Dict.{lookup}
use foreman.Sandbox.{
  DockerSandbox, find_container, within_sandbox, within_sandbox-found, within_sandbox-missing,
}
use foreman.Sandbox.Client.{Docker, Call, return, fail, ◌>>=◌, named}

-- `pack` is the writer on one file, `size` the header that `Next` reads, `contents` what follows it.
pub record Archives : Type 0 where
  pub pack : String → List ℕ → Result (List ℕ)
  pub size : List ℕ → Result ℕ
  pub contents : List ℕ → Result (List ℕ)
  pub base : String → String
  pub dir : String → String

module _ {D : Type 0} (docker : Docker D) (a : Archives) where
  unfoldable pub put_archive : String → String → List ℕ → Call D (Unit {0})
  put_archive session_id path content = do
    archive ← (λ d. (a.pack (a.base path) content, d))
    docker.copy_to_container session_id (a.dir path) archive

  abbrev sized : ℕ → List ℕ → Call D (List ℕ)
  sized size content =
      if length content == size then return content else fail (message "file size mismatch")

  unfoldable pub get_archive : String → String → Call D (List ℕ)
  get_archive session_id path = do
    archive ← named "copy from container" (docker.copy_from_container session_id path)
    size ← named "tar read" (λ d. (a.size archive, d))
    content ← named "read file" (λ d. (a.contents archive, d))
    sized size content

  unfoldable pub write_file : String → String → List ℕ → DockerSandbox → Call D (Unit {0})
  unfolding within_sandbox put_archive
  write_file session_id path content =
      within_sandbox session_id (λ _. put_archive session_id path content)

  unfoldable pub read_file : String → String → DockerSandbox → Call D (List ℕ)
  unfolding within_sandbox get_archive
  read_file session_id path = within_sandbox session_id (λ _. get_archive session_id path)

  -- An archive gives back the file that was packed, and the daemon the archive that was copied.
  pub record Keeps : Type 0 where
    pub sizes :
        (name : String) (content archive : List ℕ)
        → a.pack name content ≡ ok archive
        → a.size archive ≡ ok (length content)
    pub unpacks :
        (name : String) (content archive : List ℕ)
        → a.pack name content ≡ ok archive
        → a.contents archive ≡ ok content
    pub stores :
        (id path : String) (archive : List ℕ) (d d' : D)
        → docker.copy_to_container id (a.dir path) archive d ≡ (ok tt, d')
        → docker.copy_from_container id path d' ≡ (ok archive, d')

  put_archive-get_archive :
      (id path : String) (content : List ℕ) (d d' : D)
      → Keeps
      → put_archive id path content d ≡ (ok tt, d')
      → get_archive id path d' ≡ (ok content, d')
  unfolding put_archive get_archive
  put_archive-get_archive id path content d d' laws h =
      elim (Result-cases (a.pack (a.base path) content)) [
        | inr (e, p) ↦ ground (arith, p)
        | inl (archive, p) ↦
            rw
              (
                laws.stores id path archive d d' (ground (arith, p)),
                laws.sizes (a.base path) content archive p,
                laws.unpacks (a.base path) content archive p,
              )
              (ground arith)
      ]

  -- Where an archive gives back the file that was packed and its size, and the daemon the archive
  -- that was copied, a file that was written is read back as it was.
  write_file-read_file :
      (id path : String) (content : List ℕ) (s : DockerSandbox) (d d' : D)
      → Keeps
      → write_file id path content s d ≡ (ok tt, d')
      → read_file id path s d' ≡ (ok content, d')
  unfolding write_file read_file find_container
  write_file-read_file id path content s d d' laws h =
      elim (Option-cases (lookup id s.containers)) [
        | inl e ↦ ground (arith, within_sandbox-missing id (λ _. put_archive id path content) s d e)
        | inr (cs, e) ↦
            within_sandbox-found id (λ _. get_archive id path) s d' cs e
            ∙ (put_archive-get_archive id path content d d' laws
                (sym (within_sandbox-found id (λ _. put_archive id path content) s d cs e) ∙ h))
      ]
