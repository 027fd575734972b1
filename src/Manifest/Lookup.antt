-- ===== src/Manifest/Lookup.antt =====
-- model_scheduler.rs, `ModelManifest`: what a validated manifest is, and looking a package up.
use ale_my_eyes_desktop.Prelude.{
  ◌≡◌, ◌≢◌, refl, subst, true, false, not, ◌||◌, List, [], ◌∷◌, ◌++◌, ◌≤◌, ◌==◌, is_empty, all,
  arith, All,
}
use ale_my_eyes_desktop.Prelude.Text.{
  Text, codes, len_utf8, trim_is_empty, starts_with, text_eq, text_eq_refl,
}
use ale_my_eyes_desktop.Prelude.Result.{ok, fail_if, >>=-eq-ok}
use ale_my_eyes_desktop.Manifest.{
  ModelArtifact, ModelPackage, ModelManifest, seen, bad_package, validate_package,
  validate_packages, validate, find, unsupported_or_empty, components, is_ascii_hexdigit,
  package_of,
}

text_eq-sym : (s t : Text) → text_eq s t ≡ text_eq t s
text_eq-sym [] [] = refl
text_eq-sym [] (c ∷ t) = refl
text_eq-sym (c ∷ s) [] = refl
text_eq-sym (c ∷ s) (d ∷ t) = ground (arith, text_eq-sym s t)

-- A package of a list that passes has an id not seen before.
validate_packages-unseen :
    (before : List ModelPackage) (p : ModelPackage) (after : List ModelPackage) (ids : List Text)
    → validate_packages (before ++ p ∷ after) ids ≡ ok tt
    → seen p.id ids ≡ false
unfolding validate_packages validate_package bad_package
validate_packages-unseen [] p after ids valid = ground (arith, valid)
validate_packages-unseen (q ∷ before) p after ids valid =
    let (done, passes, rest) =
      >>=-eq-ok (validate_package q ids) (λ _. validate_packages (before ++ p ∷ after) (q.id ∷ ids))
        valid in
    ground (arith, validate_packages-unseen before p after (q.id ∷ ids) rest)

find-among :
    (before : List ModelPackage) (p : ModelPackage) (after : List ModelPackage) (ids : List Text)
    → validate_packages (before ++ p ∷ after) ids ≡ ok tt
    → find p.id (before ++ p ∷ after) ≡ ok p
unfolding validate_packages
find-among [] p after ids valid = ground (arith, text_eq_refl p.id)
find-among (q ∷ before) p after ids valid =
    let (done, passes, rest) =
      >>=-eq-ok (validate_package q ids) (λ _. validate_packages (before ++ p ∷ after) (q.id ∷ ids))
        valid in
    ground (
      arith,
      validate_packages-unseen before p after (q.id ∷ ids) rest,
      find-among before p after (q.id ∷ ids) rest,
      text_eq-sym q.id p.id,
    )

-- In a manifest that passes validation, every package is the one found under its id.
pub package_of-among :
    (m : ModelManifest) (before : List ModelPackage) (p : ModelPackage) (after : List ModelPackage)
    → m.packages ≡ before ++ p ∷ after
    → validate m ≡ ok tt
    → package_of m p.id ≡ ok p
unfolding package_of validate
package_of-among m before p after among valid =
    let (done, passes, rest) =
      >>=-eq-ok (fail_if (not (m.schema_version == 1) || is_empty m.packages) unsupported_or_empty)
        (λ _. validate_packages m.packages []) valid in
    rw (valid, among)
      (find-among before p after [] (subst (λ ps. validate_packages ps [] ≡ ok tt) among rest))

-- An artifact that is pinned: it has a size, a hash of 64 hexadecimal digits, an `https` address,
-- a named revision that is not `main`, `master` or `latest`, and a relative file name of one
-- component.
pub record IsPinned (a : ModelArtifact) : Type 0 where
  pub sized : 1 ≤ a.size_bytes
  pub hashed : len_utf8 a.sha256 ≡ 64
  pub hexadecimal : all is_ascii_hexdigit a.sha256 ≡ true
  pub secure : starts_with a.url (codes "https://") ≡ true
  pub revised : is_empty a.revision ≡ false
  pub fixed : All (λ t. a.revision ≢ t) (codes "main" ∷ codes "master" ∷ codes "latest" ∷ [])
  pub relative : starts_with a.filename (codes "/") ≡ false
  pub local_name : components a.filename ≡ 1

-- A package that can be downloaded: it needs consent, its artifacts are pinned and at least one, its
-- id is a relative path of one component that stays in the directory, and it says what it is, under
-- which license, and what it is for.
pub record IsSafe (p : ModelPackage) : Type 0 where
  pub consented : p.requires_explicit_consent ≡ true
  pub pinned : All IsPinned p.artifacts
  pub has_artifacts : is_empty p.artifacts ≡ false
  pub has_capabilities : is_empty p.capabilities ≡ false
  pub relative : starts_with p.id (codes "/") ≡ false
  pub local_id : components p.id ≡ 1
  pub inside : All (λ t. p.id ≢ t) (codes "." ∷ codes ".." ∷ [])
  pub named : trim_is_empty p.display_name ≡ false
  pub licensed : trim_is_empty p.license ≡ false
