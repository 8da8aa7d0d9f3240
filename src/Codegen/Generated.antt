-- ===== src/Codegen/Generated.antt =====
-- Which files the generators leave.
use mathlib.Core.List.{append_cancel_left, append_cancel_right}
use hft_legacy_migration_fra.Base.{
  ◌≡◌, ◌≢◌, refl, sym, ap, ◌∙◌, inl, inr, Bytes, Bool, true, false, [], ◌∷◌, ◌++◌, none, some,
  codes, lookup, lookup-insert, Distinct, eqb, eqb_iff, eqb_refl, eqb_sound, some_ne_none,
  some_injective, starts_with, if◌then◌else◌, Bool-cases, arith, subst,
}
use hft_legacy_migration_fra.Base.Run.{undefined}
use hft_legacy_migration_fra.Catalog.Types.{TableMeta}
use hft_legacy_migration_fra.Catalog.Ddl.{Tables}
use hft_legacy_migration_fra.Catalog.Load.{construct, fetch}
use hft_legacy_migration_fra.Codegen.Files.{entity_file, repository_file}
use hft_legacy_migration_fra.Codegen.UnitTest.{test_file}
use hft_legacy_migration_fra.Codegen.Program.{
  Files, entity_path, repository_path, test_path, write_file, generate, generate_entities,
  generate_repositories, generate_tests, generate_all, main, dummy_connection,
}

true_ne_false : true ≢ false
true_ne_false e = cc

eqb_ne : (s t : Bytes) → eqb s t ≡ false → s ≢ t
eqb_ne s t h e = true_ne_false (sym ((eqb_iff s t).1 e) ∙ h)

module _ (opens : Bytes → Bool) where
  lookup-write_file :
      (path other text : Bytes) (files : Files)
      → opens path ≡ true
      → lookup other (write_file opens path text files)
        ≡ (if eqb path other then some text else lookup other files)
  unfolding write_file
  lookup-write_file path other text files h = rw h (lookup-insert path other text files)

  lookup-write_file_ne :
      (path other text : Bytes) (files : Files)
      → path ≢ other
      → lookup other (write_file opens path text files) ≡ lookup other files
  unfolding write_file
  lookup-write_file_ne path other text files h = elim (Bool-cases (opens path)) [
    | inl opened ↦
        rw opened (lookup-insert path other text files ∙ ground (arith, eqb_iff path other, h))
    | inr closed ↦ rw closed refl
  ]

  module _ (path : Bytes → Bytes) (text : TableMeta → Bytes) where
    -- A file that is none of the generator's.
    untouched :
        (tables : Tables) (files : Files) (other : Bytes)
        → ((name : Bytes) → path name ≢ other)
        → lookup other (generate opens path text tables files) ≡ lookup other files
    unfolding generate
    untouched [] files other h = refl
    untouched ((name, meta) ∷ tables) files other h =
        untouched tables _ other h ∙ lookup-write_file_ne (path name) other _ files (h name)

    module _ (injective : (a b : Bytes) → path a ≡ path b → a ≡ b) where
      not_listed :
          (tables : Tables) (files : Files) (name : Bytes)
          → lookup name tables ≡ none
          → lookup (path name) (generate opens path text tables files) ≡ lookup (path name) files
      unfolding generate lookup
      not_listed [] files name h = refl
      not_listed ((j, meta) ∷ tables) files name h = elim (Bool-cases (eqb j name)) [
        | inl same ↦
            absurd
              (some_ne_none (ap (λ b. if b then some meta else lookup name tables) (sym same) ∙ h))
        | inr other ↦
            not_listed tables _ name
              (ap (λ b. if b then some meta else lookup name tables) (sym other) ∙ h)
            ∙ lookup-write_file_ne (path j) (path name) _ files
                (λ e. eqb_ne j name other (injective j name e))
      ]

      -- Each table of the catalog has its file, with the text of the table.
      written :
          (tables : Tables) (files : Files) (name : Bytes) (meta : TableMeta)
          → Distinct tables
          → lookup name tables ≡ some meta
          → opens (path name) ≡ true
          → lookup (path name) (generate opens path text tables files)
            ≡ some (text (record meta { name = name }))
      unfolding generate lookup
      written [] files name meta d h opened = cc
      written ((j, m) ∷ tables) files name meta d h opened = elim (Bool-cases (eqb j name)) [
        | inl same ↦
            subst
              (λ k.
                lookup (path k) (
                  generate opens path text tables
                    (write_file opens (path j) (text (record m { name = j })) files))
                ≡ some (text (record m { name = k })))
              (eqb_sound j name same)
              (not_listed tables _ j d.0
                ∙ lookup-write_file (path j) (path j) _ files
                    (subst (λ k. opens (path k) ≡ true) (sym (eqb_sound j name same)) opened)
                ∙ ap (λ b. if b then some (text (record m { name = j })) else lookup (path j) files)
                    (eqb_refl (path j)))
            ∙ ap (λ x. some (text (record x { name = name })))
                (some_injective (ap (λ b. if b then some m else lookup name tables) (sym same) ∙ h))
        | inr other ↦
            written tables _ name meta d.1
              (ap (λ b. if b then some m else lookup name tables) (sym other) ∙ h) opened
      ]

path_injective :
    (front back : Bytes) (a b : Bytes) → front ++ (a ++ back) ≡ front ++ (b ++ back) → a ≡ b
path_injective front back a b h =
    append_cancel_right a b back (append_cancel_left front (a ++ back) (b ++ back) h)

abbrev pub entities_dir : Bytes
entities_dir = codes "src/entity/generated"

abbrev pub repositories_dir : Bytes
repositories_dir = codes "src/repository/generated"

abbrev pub tests_dir : Bytes
tests_dir = codes "tests"

test_ne_entity : (a b : Bytes) → test_path tests_dir a ≢ entity_path entities_dir b
unfolding test_path entity_path starts_with
test_ne_entity a b e = true_ne_false (ap (starts_with (codes "tests")) e)

test_ne_repository : (a b : Bytes) → test_path tests_dir a ≢ repository_path repositories_dir b
unfolding test_path repository_path starts_with
test_ne_repository a b e = true_ne_false (ap (starts_with (codes "tests")) e)

repository_ne_entity :
    (a b : Bytes) → repository_path repositories_dir a ≢ entity_path entities_dir b
unfolding repository_path entity_path starts_with
repository_ne_entity a b e = true_ne_false (ap (starts_with (codes "src/r")) e)

entity_injective : (a b : Bytes) → entity_path entities_dir a ≡ entity_path entities_dir b → a ≡ b
unfolding entity_path
entity_injective a b e = path_injective (entities_dir ++ codes "/") (codes ".hpp") a b e

repository_injective :
    (a b : Bytes) → repository_path repositories_dir a ≡ repository_path repositories_dir b → a ≡ b
unfolding repository_path
repository_injective a b e =
    path_injective (repositories_dir ++ codes "/Repository_") (codes ".hpp") a b e

test_injective : (a b : Bytes) → test_path tests_dir a ≡ test_path tests_dir b → a ≡ b
unfolding test_path
test_injective a b e = path_injective (tests_dir ++ codes "/test_") (codes ".cpp") a b e

-- For every table of a catalog the generators leave an entity, a repository and a test with the texts for
-- that table, where these files can be opened and whatever files there were before; no file of one
-- generator is overwritten by another.
pub generate_all-lookup :
    (opens : Bytes → Bool) (tables : Tables) (files : Files) (name : Bytes) (meta : TableMeta)
    → Distinct tables
    → lookup name tables ≡ some meta
    → opens (entity_path entities_dir name) ≡ true
    → opens (repository_path repositories_dir name) ≡ true
    → opens (test_path tests_dir name) ≡ true
    → let after = generate_all opens tables files in
      let table = record meta { name = name } in
      (lookup (entity_path entities_dir name) after ≡ some (entity_file table))
      × (lookup (repository_path repositories_dir name) after ≡ some (repository_file table))
      × (lookup (test_path tests_dir name) after ≡ some (test_file table))
unfolding generate_all generate_entities generate_repositories generate_tests
generate_all-lookup opens tables files name meta d h entity repository test = (
  untouched opens (test_path tests_dir) test_file tables _ (entity_path entities_dir name)
        (λ n. test_ne_entity n name)
      ∙ untouched opens (repository_path repositories_dir) repository_file tables _
          (entity_path entities_dir name) (λ n. repository_ne_entity n name)
      ∙ written opens (entity_path entities_dir) entity_file entity_injective tables files name meta
          d h entity,
  untouched opens (test_path tests_dir) test_file tables _ (repository_path repositories_dir name)
        (λ n. test_ne_repository n name)
      ∙ written opens (repository_path repositories_dir) repository_file repository_injective tables
          _ name meta d h repository,
  written opens (test_path tests_dir) test_file test_injective tables _ name meta d h test,
)

-- The bug: the generator program works on a connection whose every query returns a null reader, through
-- which the catalog's constructor reads before anything is generated.
main-undefined : (opens : Bytes → Bool) (files : Files) → main opens files ≡ undefined
unfolding main dummy_connection construct fetch
main-undefined opens files = refl
