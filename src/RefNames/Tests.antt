-- ===== src/RefNames/Tests.antt =====
-- Names that the check accepts and refuses, and a qualified one.
use revu.Prelude.{◌≡◌, refl, true, false, codes, starts_with, text_eq, ends_with, split_on}
use revu.RefNames.{includes, is_valid_ref_name, normalize_ref_name}
use revu.RefNames.Qualified.{is_valid_ref_name-normalize_ref_name}

feature_is_valid : is_valid_ref_name (codes "feature/x-1.2") ≡ true
unfolding is_valid_ref_name text_eq starts_with ends_with includes split_on
feature_is_valid = refl

option_is_refused : is_valid_ref_name (codes "--upload-pack=x") ≡ false
unfolding is_valid_ref_name text_eq starts_with ends_with includes split_on
option_is_refused = refl

lock_is_refused : is_valid_ref_name (codes "a/b.lock/c") ≡ false
unfolding is_valid_ref_name text_eq starts_with ends_with includes split_on
lock_is_refused = refl

feature_is_qualified : normalize_ref_name (codes "feature/x") ≡ codes "refs/heads/feature/x"
unfolding normalize_ref_name starts_with
feature_is_qualified = refl

is_valid_ref_name-normalize_ref_name_example :
    (is_valid_ref_name (normalize_ref_name (codes "feature/x-1.2")) ≡ true)
    × (starts_with (normalize_ref_name (codes "feature/x-1.2")) (codes "refs/") ≡ true)
    × (normalize_ref_name (normalize_ref_name (codes "feature/x-1.2"))
        ≡ normalize_ref_name (codes "feature/x-1.2"))
is_valid_ref_name-normalize_ref_name_example =
    is_valid_ref_name-normalize_ref_name (codes "feature/x-1.2") feature_is_valid
