-- ===== src/Manifest.antt =====
-- ale-core/src/model_scheduler.rs: the manifest of the models that can be downloaded.
-- Paths are taken apart by the rules of Unix. The messages of the errors are left out.
pub mod Sizes
pub mod Lookup
use ale_my_eyes_desktop.Prelude.{
  ℕ, zero, suc, ◌+◌, ◌*◌, ◌^◌, Bool, true, false, not, ◌&&◌, ◌||◌, List, [], ◌∷◌, ltb, leb, ◌==◌,
  if◌then◌else◌, is_empty, any, all,
}
use ale_my_eyes_desktop.Prelude.Text.{Text, codes, text_eq, len_utf8, trim_is_empty, starts_with}
use ale_my_eyes_desktop.Prelude.Result.{Result, ok, err, ◌>>=◌, ◌>>◌, fail_if}
use ale_my_eyes_desktop.Modeld.Health.{ModelCapability}

pub record ModelArtifact : Type 0 where
  pub filename : Text
  pub url : Text
  pub revision : Text
  pub sha256 : Text
  pub size_bytes : ℕ

pub record ModelPackage : Type 0 where
  pub id : Text
  pub display_name : Text
  pub license : Text
  pub capabilities : List ModelCapability
  pub minimum_vram_bytes : ℕ
  pub requires_explicit_consent : Bool
  pub artifacts : List ModelArtifact

pub record ModelManifest : Type 0 where
  pub schema_version : ℕ
  pub packages : List ModelPackage

pub data ConfigError : Type 0 where
  unsupported_or_empty invalid_or_duplicate_package consent_missing : ConfigError
  invalid_pinned_artifact package_not_present : ConfigError
  size_overflows disk_requirement_overflows : ConfigError

-- The segments between the slashes.
abbrev pub segments : Text → List Text
segments [] = [] ∷ []
segments (c ∷ cs) =
    let rest = segments cs in
    if c == 47 then [] ∷ rest else elim rest [ [] ↦ (c ∷ []) ∷ [] | s ∷ ss ↦ (c ∷ s) ∷ ss ]

abbrev pub is_absolute : Text → Bool
is_absolute path = starts_with path (codes "/")

-- Segments that are components wherever they stand: not empty, not the current directory.
abbrev pub count_components : List Text → ℕ
count_components [] = 0
count_components (s ∷ ss) =
    let rest = count_components ss in if is_empty s || text_eq s (codes ".") then rest else suc rest

-- `Path::components().count()`: the root counts, and a leading `.` of a relative path.
unfoldable pub components : Text → ℕ
components path =
    let ss = segments path in
    let names = count_components ss in
    if is_absolute path || elim ss [ [] ↦ false | s ∷ rest ↦ text_eq s (codes ".") ]
    then suc names
    else names

abbrev pub is_ascii_hexdigit : ℕ → Bool
is_ascii_hexdigit c = (leb 48 c && leb c 57) || ((leb 65 c && leb c 70) || (leb 97 c && leb c 102))

unfoldable pub bad_artifact : ModelArtifact → Bool
bad_artifact a =
    a.size_bytes == 0
    || (is_absolute a.filename
        || (not (components a.filename == 1)
            || (is_empty a.revision
                || ((text_eq a.revision (codes "main")
                      || (text_eq a.revision (codes "master")
                          || text_eq a.revision (codes "latest")))
                    || (not (len_utf8 a.sha256 == 64)
                        || (not (all is_ascii_hexdigit a.sha256)
                            || not (starts_with a.url (codes "https://"))))))))

-- Whether the id was there before (`!ids.insert(id)`).
abbrev pub seen : Text → List Text → Bool
seen id ids = any (text_eq id) ids

unfoldable pub bad_package : ModelPackage → (ids : List Text) → Bool
bad_package p ids =
    trim_is_empty p.id
    || (is_absolute p.id
        || (not (components p.id == 1)
            || ((text_eq p.id (codes ".") || text_eq p.id (codes ".."))
                || (trim_is_empty p.display_name
                    || (trim_is_empty p.license
                        || (is_empty p.capabilities || (is_empty p.artifacts || seen p.id ids)))))))

-- One round of the loop of `validate`.
unfoldable pub validate_package : ModelPackage → (ids : List Text) → Result ConfigError (Unit {0})
validate_package p ids = do
  fail_if (bad_package p ids) invalid_or_duplicate_package
  fail_if (not p.requires_explicit_consent) consent_missing
  fail_if (any bad_artifact p.artifacts) invalid_pinned_artifact

unfoldable pub validate_packages :
    List ModelPackage → (ids : List Text) → Result ConfigError (Unit {0})
validate_packages [] ids = ok tt
validate_packages (p ∷ ps) ids = do validate_package p ids; validate_packages ps (p.id ∷ ids)

unfoldable pub validate : ModelManifest → Result ConfigError (Unit {0})
validate m = do
  fail_if (not (m.schema_version == 1) || is_empty m.packages) unsupported_or_empty
  validate_packages m.packages []

abbrev pub find : Text → List ModelPackage → Result ConfigError ModelPackage
find id [] = err package_not_present
find id (p ∷ ps) = let rest = find id ps in if text_eq p.id id then ok p else rest

unfoldable pub package_of : ModelManifest → Text → Result ConfigError ModelPackage
package_of m id = do validate m; find id m.packages

-- `try_fold` with `checked_add`, on 64 bits.
unfoldable pub add_sizes : ℕ → List ModelArtifact → Result ConfigError ℕ
add_sizes total [] = ok total
add_sizes total (a ∷ rest) =
    if ltb (total + a.size_bytes) (2 ^ 64)
    then add_sizes (total + a.size_bytes) rest
    else err size_overflows

unfoldable pub download_size_bytes : ModelPackage → Result ConfigError ℕ
download_size_bytes p = add_sizes 0 p.artifacts

unfoldable pub required_disk_bytes : ModelPackage → Result ConfigError ℕ
required_disk_bytes p = do
  size ← download_size_bytes p
  if ltb (size * 2) (2 ^ 64) then ok (size * 2) else err disk_requirement_overflows
