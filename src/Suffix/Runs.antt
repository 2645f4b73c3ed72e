-- ===== src/Suffix/Runs.antt =====
-- Suffixes of concrete names.
use tar.Base.{◌≡◌, refl, true, false, none, some, ◌∷◌, ◌++◌}
use tar.Base.Text.{codes, streq}
use tar.Suffix.{
  gzip, compress, entry, find_entry, find_compression_suffix, entry_behind, last_dot, starts_suffix,
  set_compression_program_by_suffix, choose_program,
}
use tar.Suffix.Names.{set_compression_program-append}

no_suffix_run :
    set_compression_program_by_suffix (codes "a.gz/b") (some compress) true ≡ (some compress, true)
unfolding set_compression_program_by_suffix find_compression_suffix entry_behind last_dot find_entry
    streq starts_suffix choose_program
no_suffix_run = refl

set_compression_program-append_example :
    set_compression_program_by_suffix (codes "backup" ++ (b'.' ∷ codes "tgz")) none true
    ≡ (some gzip, false)
set_compression_program-append_example =
    set_compression_program-append (codes "backup") (codes "tgz") (entry (codes "tgz") (some gzip))
      none true (unfold find_entry streq in refl)
