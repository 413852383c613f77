-- ===== src/Base/Examples.antt =====
-- Runs of the C library's functions.
use mathlib.Core.Path.{◌≡◌, refl}
use mathlib.Core.Bool.{true}
use tr069_manager.Base.Text.{codes, strstr, atoi}

atoi_test : atoi (codes " 42s") ≡ 42
unfolding atoi
atoi_test = refl

atoi_negative : atoi (codes "-1") ≡ 4294967295
unfolding atoi
atoi_negative = refl

strstr_inside : strstr (codes "10.0.0.12") (codes "0.0.1") ≡ true
unfolding strstr
strstr_inside = refl
