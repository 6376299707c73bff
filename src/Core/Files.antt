-- ===== src/Core/Files.antt =====
-- What the code asks of the file system, as operations on a world: the calls of core/SecureFs.cpp and
-- core/IntegrityVerifier.cpp that open files, and `RuntimePaths::Exists`. An operation that only looks
-- has no world in its result.
use cheburnet.Base.{ℕ, Bool, Option, Bytes}

pub data ObjectKind : Type 0 where
  a_file a_directory : ObjectKind

pub record Files (W : Type 0) : Type 0 where
  -- `FullPath`, and `std::towlower`.
  pub full_path : Bytes → Bytes
  pub to_lower : ℕ → ℕ
  pub exists : Bytes → W → Bool
  -- `ValidateObject` and `ValidateProtectedObject`, with the demand for a single link.
  pub validate_object : Bytes → ObjectKind → Bool → W → Bool
  pub validate_protected : Bytes → ObjectKind → Bool → W → Bool
  -- `EnsureProtectedDirectory`
  pub ensure_protected : Bytes → W → Bool × W
  -- `RemoveTreeImpl` of the full path.
  pub remove_tree : Bytes → W → Bool × W
  -- `AtomicWrite` of the bytes, with the SHA-256 that is expected of them.
  pub atomic_write : Bytes → Bytes → Bytes → W → Bool × W
  -- The bytes of a package, if it can be opened and is a plain file with a single link.
  pub open_package : Bytes → W → Option Bytes
  pub file_size : Bytes → W → Option ℕ
  pub sha256_file : Bytes → W → Option Bytes
  -- `Sha256Hex` of the bytes.
  pub sha256_hex : Bytes → Option Bytes
