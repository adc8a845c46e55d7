-- ===== src/Web/Examples.antt =====
-- web.go: a patch of a short page.
use gotst.Prelude.{[], ◌≡◌, refl, text}
use gotst.Web.{make_html_patch, apply_patch}
use gotst.Web.PatchLaws.{apply_patch-make_html_patch}

-- The rune that both pages have in the middle is not counted twice.
patch_run :
    make_html_patch (text "prefix old suffix") (text "prefix new suffix")
    ≡ record { prefix = 7; suffix = 7; insert = text "new" }
unfolding make_html_patch
patch_run = refl

repeated_run :
    make_html_patch (text "aaa") (text "aa") ≡ record { prefix = 2; suffix = 0; insert = [] }
unfolding make_html_patch
repeated_run = refl

apply_patch-make_html_patch_example :
    apply_patch
      (text "prefix old suffix")
      (make_html_patch (text "prefix old suffix") (text "prefix new suffix"))
    ≡ text "prefix new suffix"
apply_patch-make_html_patch_example =
    apply_patch-make_html_patch (text "prefix old suffix") (text "prefix new suffix")
