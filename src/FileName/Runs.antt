-- ===== src/FileName/Runs.antt =====
-- File names, one by one.
use tar.Base.{◌≡◌, refl, ◌⊎◌, ◌∷◌, ◌++◌}
use tar.Base.Text.{Bytes, codes}
use tar.FileName.{
  normalize_filename_x, copy_start, copy_loop, pass, slashlen, dotslashlen, dotslash_loop, trim,
  trim_dot, trim_slash, replace_prefix,
}
use tar.FileName.Components.{components}
use tar.FileName.Normal.{components-normalize_filename_x}
use tar.FileName.Prefix.{replace_prefix_cases}

normalize_run : normalize_filename_x (codes ".//a/./b//c/.") ≡ codes "a/b/c"
unfolding normalize_filename_x copy_start copy_loop pass slashlen dotslashlen dotslash_loop trim
    trim_dot trim_slash
normalize_run = refl

components-normalize_filename_x_example :
    components (normalize_filename_x (codes "/a/./b//")) ≡ components (codes "/a/./b//")
components-normalize_filename_x_example = components-normalize_filename_x (codes "/a/./b//")

replace_prefix_cases_example :
    (replace_prefix (codes "usr/bin/tar") (codes "usr") (codes "opt") ≡ codes "usr/bin/tar")
    ⊎ ((rest : Bytes) × (codes "usr/bin/tar" ≡ codes "usr" ++ (b'/' ∷ rest))
        × (replace_prefix (codes "usr/bin/tar") (codes "usr") (codes "opt")
            ≡ codes "opt" ++ (b'/' ∷ rest)))
replace_prefix_cases_example =
    replace_prefix_cases (codes "usr/bin/tar") (codes "usr") (codes "opt")
