-- ===== src/Rbac/Paths.antt =====
-- `_normalize_path_template` and `is_public_endpoint` of services/rbac_matrix.py. The regular
-- expression `\{[^/]+\}` matches at most once between two slashes: from the first brace that has a
-- closing one two places on or later, up to the last closing brace.
use auth_claw.Prelude.{
  Bool, Text, [], any, codes, false, if◌then◌else◌, is_empty, not, text_eq, true, upper, ◌&&◌, ◌++◌,
  ◌==◌, ◌||◌, ◌∷◌,
}
use auth_claw.Rbac.Glob.{fnmatch}
use auth_claw.Rbac.Roles.{public_paths}

-- There is a closing brace before the next slash.
unfoldable pub has_close : Text → Bool
has_close [] = false
has_close (c ∷ s) = not (c == 47) && (c == 125 || has_close s)

-- After an opening brace: a character that is no slash, then a closing brace before the next slash.
unfoldable pub opens : Text → Bool
unfolding has_close
opens [] = false
opens (c ∷ s) = not (c == 47) && has_close s

-- re.sub(r"\{[^/]+\}", "*", path), where the first argument tells that a match goes on.
unfoldable pub star_params : Bool → Text → Text
unfolding has_close opens
star_params inside [] = []
star_params true (c ∷ s) = star_params (has_close s) s
star_params false (c ∷ s) =
    let opened = c == 123 && opens s in (if opened then 42 else c) ∷ star_params opened s

-- path[:-1] where the path ends with a slash.
unfoldable pub drop_slash : Text → Text
drop_slash [] = []
drop_slash (c ∷ []) = if c == 47 then [] else c ∷ []
drop_slash (c ∷ d ∷ s) = c ∷ drop_slash (d ∷ s)

unfoldable pub normalize_path_template : Text → Text
unfolding star_params drop_slash codes text_eq
normalize_path_template path =
    let named = star_params false (if is_empty path then codes "/" else path) in
    if text_eq named (codes "/") then named else drop_slash named

unfoldable pub is_public_endpoint : Text → Text → Bool
unfolding normalize_path_template public_paths upper fnmatch codes
is_public_endpoint method path =
    let target = upper method ++ codes " " ++ normalize_path_template path in
    any (λ p. fnmatch p target) public_paths
